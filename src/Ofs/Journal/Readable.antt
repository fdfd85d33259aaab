-- ===== src/Ofs/Journal/Readable.antt =====
-- A replay changes nothing of which blocks can be read.
use openv.Common.{ℕ, zero, suc, ◌+◌, ◌*◌, ◌≡◌, refl, ◌∙◌, Bool, true, false, List, [], ◌∷◌, arith}
use openv.Ofs.Buffer.{u32_le}
use openv.Ofs.Device.{Block, Device, finish_write, write_block}
use openv.Ofs.Journal.{
  journal_hdr_blk, journal_data_blk, clear_header, replay_slot, replay_slots, journal_replay,
}

finish_write-readable :
    (os : List Bool) (blk : ℕ) (b : Block) (d : Device)
    → (finish_write os blk b d).1.readable ≡ d.readable
finish_write-readable [] blk b d = refl
finish_write-readable (false ∷ os) blk b d = refl
finish_write-readable (true ∷ os) blk b d = refl

write_block-readable :
    (blk : ℕ) (b : Block) (d : Device) → (write_block blk b d).1.readable ≡ d.readable
unfolding write_block
write_block-readable blk b d = finish_write-readable d.outcomes blk b d

replay_slot-readable :
    (hdr : Block) (i : ℕ) (d : Device) → (replay_slot hdr i d).readable ≡ d.readable
unfolding replay_slot
replay_slot-readable hdr i d =
    ground
      (arith, write_block-readable (u32_le hdr (16 + i * 4)) (d.blocks (journal_data_blk + i)) d)

replay_slots-readable :
    (hdr : Block) (n i : ℕ) (d : Device) → (replay_slots hdr n i d).readable ≡ d.readable
unfolding replay_slots
replay_slots-readable hdr zero i d = refl
replay_slots-readable hdr (suc n) i d =
    replay_slots-readable hdr n (suc i) (replay_slot hdr i d) ∙ replay_slot-readable hdr i d

pub journal_replay-readable : (d : Device) → (journal_replay d).readable ≡ d.readable
unfolding journal_replay
journal_replay-readable d =
    let hdr = d.blocks journal_hdr_blk in
    let n = u32_le hdr 4 in
    ground (
      arith,
      write_block-readable journal_hdr_blk clear_header (replay_slots hdr n 0 d),
      replay_slots-readable hdr n 0 d,
    )
