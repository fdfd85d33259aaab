-- ===== src/Proto/Tests.antt =====
-- The theorems on the process manager's requests and on driver descriptors on concrete data.
use openv.Common.{ℕ, ◌≡◌, refl, arith, true, List, [], ◌∷◌, replicate}
use openv.Common.{some}
use openv.Proto.Driver.{DriverDesc, mmio, irq, serialize, deserialize}
use openv.Proto.Driver.RoundTrip.{deserialize-serialize}

abbrev blank : List ℕ
blank = replicate 56 0

-- The driver "blk", with a device region and an interrupt.
abbrev block_driver : DriverDesc
block_driver = record {
  name = 98 ∷ 108 ∷ 107 ∷ [];
  version_major = 1;
  version_minor = 2;
  version_patch = 3;
  required_caps = 5;
  resources =
      record { kind = mmio 0x1000_1000 0x1000; name = 114 ∷ [] }
      ∷ record { kind = irq 1; name = 105 ∷ [] }
      ∷ [];
}

deserialize-serialize_example :
    deserialize (λ bs. true) (serialize block_driver) ≡ some block_driver
deserialize-serialize_example =
    deserialize-serialize (λ bs. true) block_driver
      (record {
        name_fits = (omega arith, refl);
        major_small = omega arith;
        minor_small = omega arith;
        patch_small = omega arith;
        caps_small = omega arith;
        count_small = omega arith;
        resources_fit = (
          ((omega arith, omega arith), (omega arith, refl)),
          ((omega arith, (omega arith, refl)), tt),
        );
      })
