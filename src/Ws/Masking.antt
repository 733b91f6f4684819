-- ===== src/Ws/Masking.antt =====
-- Masking is undone by masking again.
use cpp_npl.Base.{
  ℕ, zero, suc, ◌<◌, ◌≡◌, refl, ap, ap₂, bit_xor, Bool, true, ◌&&◌, [], ◌∷◌, Bytes, length, get_or,
  ◌==◌, ==_iff, ◌%◌, arith,
}
use cpp_npl.Ws.Frame.{mask_from}

abbrev pub AreBytes : Bytes → Type 0
AreBytes [] = Unit {0}
AreBytes (x ∷ s) = (x < 256) × AreBytes s

-- Is each number up to the bound, masked twice with the key, itself again?
restores : (key bound : ℕ) → Bool
restores key zero = true
restores key (suc top) = bit_xor (bit_xor top key) key == top && restores key top

-- That, for each key up to a bound.
keys_restore : (keys bound : ℕ) → Bool
unfolding restores
keys_restore zero bound = true
keys_restore (suc key) bound = restores key bound && keys_restore key bound

restores_lem :
    (key bound : ℕ)
    → restores key bound ≡ true
    → (byte : ℕ) → byte < bound
    → bit_xor (bit_xor byte key) key ≡ byte
unfolding restores
restores_lem key zero h byte b = absurd (omega arith)
restores_lem key (suc top) h byte b =
    grind (arith, restores_lem key top, ==_iff (bit_xor (bit_xor top key) key) top)

keys_restore_lem :
    (keys bound : ℕ)
    → keys_restore keys bound ≡ true
    → (key : ℕ) → key < keys
    → restores key bound ≡ true
unfolding keys_restore
keys_restore_lem zero bound h key k = absurd (omega arith)
keys_restore_lem (suc top) bound h key k = grind (arith, keys_restore_lem top bound)

every_byte : keys_restore 256 256 ≡ true
unfolding keys_restore restores
every_byte = refl

pub bit_xor_twice : (x k : ℕ) → x < 256 → k < 256 → bit_xor (bit_xor x k) k ≡ x
bit_xor_twice x k hx hk = restores_lem k 256 (keys_restore_lem 256 256 every_byte k hk) x hx

AreBytes-get_or : (s : Bytes) (i : ℕ) → AreBytes s → get_or s i 0 < 256
AreBytes-get_or [] i h = omega arith
AreBytes-get_or (x ∷ s) zero h = h.0
AreBytes-get_or (x ∷ s) (suc i) h = AreBytes-get_or s i h.1

pub mask_from_twice :
    (i : ℕ) (key s : Bytes) → AreBytes key → AreBytes s → mask_from i key (mask_from i key s) ≡ s
unfolding mask_from
mask_from_twice i key [] hk hs = refl
mask_from_twice i key (x ∷ s) hk hs =
    ap₂ (λ y t. y ∷ t)
      (bit_xor_twice x (get_or key (i % 4) 0) hs.0 (AreBytes-get_or key (i % 4) hk))
      (mask_from_twice (suc i) key s hk hs.1)

pub length-mask_from : (i : ℕ) (key s : Bytes) → length (mask_from i key s) ≡ length s
unfolding mask_from
length-mask_from i key [] = refl
length-mask_from i key (x ∷ s) = ap suc (length-mask_from (suc i) key s)
