-- ===== src/Device/AnyOrder.antt =====
-- Writes of a CDevice (INCLUDE/CDevice.hpp) on Windows: what they make of the file does not depend on
-- the order in which the system completes them.
use mathlib.Core.List.{Permᴰ, flatten}
use cpp_npl.Base.{
  ℕ, zero, suc, ◌+◌, ◌-◌, ◌*◌, ◌^◌, ◌≤◌, ◌<◌, ◌≡◌, ◌⊎◌, inl, inr, refl, sym, ap, ap₂, append-nil,
  append_assoc, ◌∙◌, true, List, [], ◌∷◌, ◌++◌, Bytes, length, length-append, get_or, leb, ltb,
  Bool-cases, subst, if◌then◌else◌, arith,
}
use cpp_npl.Dispatcher.{Io}
use cpp_npl.Device.Overlapped.{Request, Windows, request, complete_all}

-- The offset that a request has from its two halves.
abbrev pub offset_of : Request → ℕ
offset_of r = r.high * 2 ^ 32 + r.low

abbrev pub end_of : Request → ℕ
end_of r = offset_of r + length r.bytes

-- A file on a handle: a write that is completed puts its bytes at its offset, makes the file longer
-- where they reach behind its end, and leaves the other bytes as they are. A request is always taken.
pub record IsDisk (W : Windows) (h : ℕ) : Type 0 where
  pub size : W.State → ℕ
  pub byte : ℕ → W.State → ℕ
  pub takes : (r : Request) (s : W.State) → W.starts h r s ≡ true
  pub size-complete :
      (r : Request) (s : W.State)
      → r.type ≡ Io.written
      → r.count ≡ length r.bytes
      → size (W.complete h r s) ≡ (if leb (end_of r) (size s) then size s else end_of r)
  pub byte_inside :
      (r : Request) (s : W.State) (j : ℕ)
      → r.type ≡ Io.written
      → r.count ≡ length r.bytes
      → j < length r.bytes
      → byte (offset_of r + j) (W.complete h r s) ≡ get_or r.bytes j 0
  pub byte_outside :
      (r : Request) (s : W.State) (i : ℕ)
      → r.type ≡ Io.written
      → r.count ≡ length r.bytes
      → i < size s
      → (i < offset_of r) ⊎ (end_of r ≤ i)
      → byte i (W.complete h r s) ≡ byte i s

-- A write of bytes that stand in a text where they are written.
pub record Belongs (t : Bytes) (r : Request) : Type 0 where
  pub type : r.type ≡ Io.written
  pub count : r.count ≡ length r.bytes
  pub ends : end_of r ≤ length t
  pub same : (j : ℕ) → j < length r.bytes → get_or r.bytes j 0 ≡ get_or t (offset_of r + j) 0

abbrev pub AllBelong : Bytes → List Request → Type 0
AllBelong t [] = Unit {0}
AllBelong t (r ∷ rs) = Belongs t r × AllBelong t rs

-- One of the requests writes the byte at a position.
abbrev IsIn : ℕ → Request → Type 0
IsIn i r = (offset_of r ≤ i) × (i < end_of r)

abbrev pub Writes : ℕ → List Request → Type 0
Writes i [] = ⊥
Writes i (r ∷ rs) = IsIn i r ⊎ Writes i rs

AllBelong-perm : (t : Bytes) {rs cs : List Request} → Permᴰ rs cs → AllBelong t rs → AllBelong t cs
AllBelong-perm t Permᴰ.nil a = a
AllBelong-perm t (Permᴰ.cons e p) (b, bs) = (subst (Belongs t) e b, AllBelong-perm t p bs)
AllBelong-perm t (Permᴰ.swap e f) (b, (c, cs)) =
    (subst (Belongs t) f c, (subst (Belongs t) e b, cs))
AllBelong-perm t (Permᴰ.trans p q) a = AllBelong-perm t q (AllBelong-perm t p a)

Writes-perm : (i : ℕ) {rs cs : List Request} → Permᴰ rs cs → Writes i rs → Writes i cs
Writes-perm i Permᴰ.nil w = w
Writes-perm i (Permᴰ.cons e p) (inl w) = inl (subst (IsIn i) e w)
Writes-perm i (Permᴰ.cons e p) (inr w) = inr (Writes-perm i p w)
Writes-perm i (Permᴰ.swap e f) (inl w) = inr (inl (subst (IsIn i) e w))
Writes-perm i (Permᴰ.swap e f) (inr (inl w)) = inl (subst (IsIn i) f w)
Writes-perm i (Permᴰ.swap e f) (inr (inr w)) = inr (inr w)
Writes-perm i (Permᴰ.trans p q) w = Writes-perm i q (Writes-perm i p w)

lt_or_le : (m n : ℕ) → (m < n) ⊎ (n ≤ m)
lt_or_le m n = elim (Bool-cases (ltb m n)) [
  | inl e ↦ inl (ground arith)
  | inr e ↦ inr (ground arith)
]

-- Where a position lies.
side : (i : ℕ) (r : Request) → IsIn i r ⊎ ((i < offset_of r) ⊎ (end_of r ≤ i))
side i r = elim (lt_or_le i (offset_of r)) [
  | inl l ↦ inr (inl l)
  | inr l ↦ elim (lt_or_le i (end_of r)) [ inl m ↦ inl (l, m) | inr m ↦ inr (inr m) ]
]

abbrev pub tabulate : (ℕ → ℕ) → ℕ → Bytes
tabulate f zero = []
tabulate f (suc k) = f 0 ∷ tabulate (λ i. f (suc i)) k

tabulate_lem :
    (f : ℕ → ℕ) (t : Bytes)
    → ((i : ℕ) → i < length t → f i ≡ get_or t i 0)
    → tabulate f (length t) ≡ t
tabulate_lem f [] e = refl
tabulate_lem f (x ∷ t) e =
    ap₂ ◌∷◌ (e 0 (omega arith)) (tabulate_lem (λ i. f (suc i)) t (λ i l. e (suc i) (omega arith)))

full_size : (m k : ℕ) → m ≤ k → ((i : ℕ) → i < k → i < m) → m ≡ k
full_size m zero l f = omega arith
full_size m (suc k) l f = omega (arith, f k (omega arith))

module _ (W : Windows) (h : ℕ) (n : IsDisk W h) where
  -- The bytes of the file, as many as it has.
  abbrev pub content : W.State → Bytes
  content s = tabulate (λ i. n.byte i s) (n.size s)

module _ (W : Windows) (h : ℕ) (n : IsDisk W h) (t : Bytes) where
  -- A position is good when the file reaches behind it and has the byte of the text there.
  abbrev IsGood : ℕ → W.State → Type 0
  IsGood i s = (i < n.size s) × (n.byte i s ≡ get_or t i 0)

  size_kept :
      (r : Request) (s : W.State)
      → Belongs t r
      → n.size s ≤ length t
      → n.size (W.complete h r s) ≤ length t
  size_kept r s b l = let e = n.size-complete r s b.type b.count in let m = b.ends in ground arith

  size_grows :
      (r : Request) (s : W.State)
      → Belongs t r
      → (n.size s ≤ n.size (W.complete h r s)) × (end_of r ≤ n.size (W.complete h r s))
  size_grows r s b = let e = n.size-complete r s b.type b.count in ground arith

  complete-IsGood :
      (r : Request) (s : W.State) (i : ℕ) → Belongs t r → IsIn i r → IsGood i (W.complete h r s)
  complete-IsGood r s i b (l, m) =
      let j : ℕ = i - offset_of r in
      let at : offset_of r + j ≡ i = omega arith in
      let short : j < length r.bytes = omega arith in
      let (_, g) = size_grows r s b in
      (
        omega arith,
        subst (λ x. n.byte x (W.complete h r s) ≡ get_or t x 0) at
            (n.byte_inside r s j b.type b.count short ∙ b.same j short),
      )

  complete_behind-IsGood :
      (r : Request) (s : W.State) (i : ℕ)
      → Belongs t r
      → (i < offset_of r) ⊎ (end_of r ≤ i)
      → IsGood i s
      → IsGood i (W.complete h r s)
  complete_behind-IsGood r s i b o (l, e) =
      let (g, _) = size_grows r s b in (omega arith, n.byte_outside r s i b.type b.count l o ∙ e)

  sizes_kept :
      (rs : List Request) (s : W.State)
      → AllBelong t rs
      → n.size s ≤ length t
      → n.size (complete_all W h rs s) ≤ length t
  unfolding complete_all
  sizes_kept [] s a l = l
  sizes_kept (r ∷ rs) s (b, bs) l = sizes_kept rs (W.complete h r s) bs (size_kept r s b l)

  complete_all-IsGood :
      (rs : List Request) (s : W.State) (i : ℕ)
      → AllBelong t rs
      → IsGood i s ⊎ Writes i rs
      → IsGood i (complete_all W h rs s)
  unfolding complete_all
  complete_all-IsGood [] s i a (inl g) = g
  complete_all-IsGood [] s i a (inr w) = absurd w
  complete_all-IsGood (r ∷ rs) s i (b, bs) g =
      complete_all-IsGood rs (W.complete h r s) i bs (elim (side i r) [
        | inl w ↦ inl (complete-IsGood r s i b w)
        | inr o ↦ elim g [
          | inl g ↦ inl (complete_behind-IsGood r s i b o g)
          | inr (inl w) ↦ inl (complete-IsGood r s i b w)
          | inr (inr w) ↦ inr w
        ]
      ])

  -- Writes of parts of a text that together write it all, to an empty file, make the file that text,
  -- in whatever order they are completed.
  pub any_order :
      (rs cs : List Request) (s : W.State)
      → Permᴰ rs cs
      → AllBelong t rs
      → ((i : ℕ) → i < length t → Writes i rs)
      → n.size s ≡ 0
      → content W h n (complete_all W h cs s) ≡ t
  any_order rs cs s p a w z =
      let b = AllBelong-perm t p a in
      let good : (i : ℕ) → i < length t → IsGood i (complete_all W h cs s) =
        λ i l. complete_all-IsGood cs s i b (inr (Writes-perm i p (w i l))) in
      let short = sizes_kept cs s b (omega arith) in
      let v : W.State = complete_all W h cs s in
      ap (tabulate (λ i. n.byte i v)) (full_size (n.size v) (length t) short (λ i l. (good i l).0))
      ∙ tabulate_lem (λ i. n.byte i v) t (λ i l. (good i l).1)

-- The requests of blocks that are written behind one another, the latest at the head.
abbrev pub block_requests : ℕ → List Bytes → List Request → List Request
block_requests o [] rs = rs
block_requests o (b ∷ bs) rs =
    block_requests (o + length b) bs (request Io.written b (length b) o ∷ rs)

get_or-behind : (s u : Bytes) (j : ℕ) → get_or (s ++ u) (length s + j) 0 ≡ get_or u j 0
get_or-behind [] u j = ap (λ k. get_or u k 0) (omega arith)
get_or-behind (x ∷ s) u j =
    let e : suc (length s) + j ≡ suc (length s + j) = omega arith in
    ap (λ k. get_or (x ∷ s ++ u) k 0) e ∙ get_or-behind s u j

get_or-front : (s u : Bytes) (j : ℕ) → j < length s → get_or (s ++ u) j 0 ≡ get_or s j 0
get_or-front [] u j l = absurd (omega arith)
get_or-front (x ∷ s) u zero l = refl
get_or-front (x ∷ s) u (suc j) l = get_or-front s u j (omega arith)

-- A count below 2 ^ 32 and an offset below 2 ^ 64 are passed on whole.
whole_offset : (b : Bytes) (o : ℕ) → o < 2 ^ 64 → offset_of (request Io.written b (length b) o) ≡ o
unfolding request
whole_offset b o l = omega arith

request-Belongs :
    (t pre b rest : Bytes) (o : ℕ)
    → t ≡ pre ++ (b ++ rest)
    → o ≡ length pre
    → length b < 2 ^ 32
    → length t < 2 ^ 64
    → Belongs t (request Io.written b (length b) o)
request-Belongs t pre b rest o e at s l =
    let size : length t ≡ length pre + (length b + length rest) =
      ap length e
      ∙ length-append pre (b ++ rest)
      ∙ ap (λ k. length pre + k) (length-append b rest) in
    let whole = whole_offset b o (omega arith) in
    unfold request in
    record {
      type = refl;
      count = omega arith;
      ends = omega arith;
      same = λ j m.
          sym (get_or-front b rest j m)
          ∙ sym (get_or-behind pre (b ++ rest) j)
          ∙ ap₂ (λ x k. get_or x k 0) (sym e) (ap (λ k. k + j) (sym at ∙ sym whole));
    }

-- Every block can be written by one call.
abbrev pub AllShort : List Bytes → Type 0
AllShort [] = Unit {0}
AllShort (b ∷ bs) = (length b < 2 ^ 32) × AllShort bs

request-IsIn :
    (t pre b rest : Bytes) (o i : ℕ)
    → t ≡ pre ++ (b ++ rest)
    → o ≡ length pre
    → length t < 2 ^ 64
    → length pre ≤ i
    → i < length (pre ++ b)
    → IsIn i (request Io.written b (length b) o)
request-IsIn t pre b rest o i e at l m k =
    let size : length t ≡ length pre + (length b + length rest) =
      ap length e
      ∙ length-append pre (b ++ rest)
      ∙ ap (λ k. length pre + k) (length-append b rest) in
    let whole = whole_offset b o (omega arith) in
    let both = length-append pre b in unfold request in (omega arith, omega arith)

pub blocks_cover :
    (t pre : Bytes) (o : ℕ) (bs : List Bytes) (rs : List Request)
    → t ≡ pre ++ flatten bs
    → o ≡ length pre
    → AllShort bs
    → length t < 2 ^ 64
    → AllBelong t rs
    → ((i : ℕ) → i < length pre → Writes i rs)
    → AllBelong t (block_requests o bs rs)
      × ((i : ℕ) → i < length t → Writes i (block_requests o bs rs))
unfolding flatten
blocks_cover t pre o [] rs e at s l a w =
    (a, λ i m. w i (omega (arith, ap length (e ∙ append-nil pre))))
blocks_cover t pre o (b ∷ bs) rs e at (s, ss) l a w =
    blocks_cover t (pre ++ b) (o + length b) bs (request Io.written b (length b) o ∷ rs)
      (e ∙ sym (append_assoc pre b (flatten bs))) (omega (arith, length-append pre b, at)) ss l
      (request-Belongs t pre b (flatten bs) o e at s l, a)
      (λ i m. elim (lt_or_le i (length pre)) [
        | inl k ↦ inr (w i k)
        | inr k ↦ inl (request-IsIn t pre b (flatten bs) o i e at l k m)
      ])
