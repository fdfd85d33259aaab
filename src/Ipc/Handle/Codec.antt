-- ===== src/Ipc/Handle/Codec.antt =====
-- Handle numbers: `encode_handle` and `decode_handle` of src/ipc/handle.rs are inverse.
use openv.Common.{ℕ, ◌^◌, ◌<◌, ◌≡◌, arith}
use openv.Ipc.Handle.{encode_handle, handle_id, handle_generation}

-- An id and a generation of 16 bits are read back from their handle, which fits 32 bits, and
-- every 32-bit handle is the encoding of what it decodes to.
pub decode-encode :
    (id generation handle : ℕ)
    → id < 65536
    → generation < 65536
    → handle < 2 ^ 32
    → (handle_id (encode_handle id generation) ≡ id)
      × (handle_generation (encode_handle id generation) ≡ generation)
      × (encode_handle id generation < 2 ^ 32)
      × (encode_handle (handle_id handle) (handle_generation handle) ≡ handle)
unfolding encode_handle
decode-encode id generation handle p q r = omega arith

pub encode-decode :
    (handle : ℕ)
    → handle < 2 ^ 32
    → encode_handle (handle_id handle) (handle_generation handle) ≡ handle
unfolding encode_handle
encode-decode handle h = omega arith

pub id-encode : (id g : ℕ) → id < 65536 → g < 65536 → handle_id (encode_handle id g) ≡ id
unfolding encode_handle
id-encode id g p q = omega arith

pub generation-encode :
    (id g : ℕ) → id < 65536 → g < 65536 → handle_generation (encode_handle id g) ≡ g
unfolding encode_handle
generation-encode id g p q = omega arith
