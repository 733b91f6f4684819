-- ===== src/Ftp/LateTests.antt =====
-- A download of CProtocolFTP (INCLUDE/CProtocolFTP.hpp) on Windows on small inputs, over a file that
-- is kept as its bytes.
use mathlib.Core.List.{flatten, Permᴰ}
use cpp_npl.Base.{
  ℕ, zero, suc, ◌+◌, ◌≤◌, ◌<◌, ◌≡◌, ◌⊎◌, inl, inr, refl, ap, ◌∙◌, true, false, some, none, List, [],
  ◌∷◌, ◌++◌, append-nil, Bytes, codes, length, drop, get_or, leb, if◌then◌else◌, arith,
}
use cpp_npl.Dispatcher.{Io}
use cpp_npl.Device.{DeviceType, went}
use cpp_npl.Device.Overlapped.{Windows, FileDevice, request, complete_all}
use cpp_npl.Device.AnyOrder.{offset_of, IsDisk, content, block_requests}
use cpp_npl.Ftp.State.{Phase, no_tls, clear, Client, new_client, ok}
use cpp_npl.Ftp.Commands.{pasv_command}
use cpp_npl.Ftp.Session.{run}
use cpp_npl.Ftp.Passive.{Passive, IsPassive, passive_text}
use cpp_npl.Ftp.Download.{fetch, download_events}
use cpp_npl.Ftp.Replay.{play}
use cpp_npl.Ftp.StoredLate.{overlapped_calls, download_any_order}

-- The bytes are put at a position, behind zeros where the text ends before it.
abbrev put_at : ℕ → Bytes → Bytes → Bytes
put_at zero b s = b ++ drop (length b) s
put_at (suc o) b [] = 0 ∷ put_at o b []
put_at (suc o) b (x ∷ s) = x ∷ put_at o b s

length-over :
    (b s : Bytes)
    → length (b ++ drop (length b) s) ≡ (if leb (length b) (length s) then length s else length b)
length-over [] s = ground arith
length-over (x ∷ b) [] = let e = ap length (append-nil b) in ground arith
length-over (x ∷ b) (y ∷ s) = let e = length-over b s in ground arith

length-put_at :
    (o : ℕ) (b s : Bytes)
    → length (put_at o b s) ≡ (if leb (o + length b) (length s) then length s else o + length b)
length-put_at zero b s = let e = length-over b s in ground arith
length-put_at (suc o) b [] = let e = length-put_at o b [] in ground arith
length-put_at (suc o) b (x ∷ s) = let e = length-put_at o b s in ground arith

inside_over : (b s : Bytes) (j : ℕ) → j < length b → get_or (b ++ s) j 0 ≡ get_or b j 0
inside_over [] s j l = absurd (omega arith)
inside_over (x ∷ b) s zero l = refl
inside_over (x ∷ b) s (suc j) l = inside_over b s j (omega arith)

inside_put_at :
    (o : ℕ) (b s : Bytes) (j : ℕ) → j < length b → get_or (put_at o b s) (o + j) 0 ≡ get_or b j 0
inside_put_at zero b s j l =
    ap (λ k. get_or (b ++ drop (length b) s) k 0) (omega arith)
    ∙ inside_over b (drop (length b) s) j l
inside_put_at (suc o) b [] j l =
    let e : suc o + j ≡ suc (o + j) = omega arith in
    ap (λ k. get_or (0 ∷ put_at o b []) k 0) e ∙ inside_put_at o b [] j l
inside_put_at (suc o) b (x ∷ s) j l =
    let e : suc o + j ≡ suc (o + j) = omega arith in
    ap (λ k. get_or (x ∷ put_at o b s) k 0) e ∙ inside_put_at o b s j l

beyond : (b : Bytes) (i : ℕ) → length b ≤ i → get_or (b ++ []) i 0 ≡ 0
beyond [] i l = refl
beyond (x ∷ b) zero l = absurd (omega arith)
beyond (x ∷ b) (suc i) l = beyond b i (omega arith)

outside_over :
    (b s : Bytes) (i : ℕ) → length b ≤ i → get_or (b ++ drop (length b) s) i 0 ≡ get_or s i 0
outside_over [] s i l = refl
outside_over (x ∷ b) s zero l = absurd (omega arith)
outside_over (x ∷ b) [] (suc i) l = beyond b i (omega arith)
outside_over (x ∷ b) (y ∷ s) (suc i) l = outside_over b s i (omega arith)

outside_put_at :
    (o : ℕ) (b s : Bytes) (i : ℕ)
    → (i < o) ⊎ (o + length b ≤ i)
    → i < length s
    → get_or (put_at o b s) i 0 ≡ get_or s i 0
outside_put_at zero b s i (inl l) m = absurd (omega arith)
outside_put_at zero b s i (inr l) m = outside_over b s i (omega arith)
outside_put_at (suc o) b [] i l m = absurd (omega arith)
outside_put_at (suc o) b (x ∷ s) zero l m = refl
outside_put_at (suc o) b (x ∷ s) (suc i) (inl l) m =
    outside_put_at o b s i (inl (omega arith)) (omega arith)
outside_put_at (suc o) b (x ∷ s) (suc i) (inr l) m =
    outside_put_at o b s i (inr (omega arith)) (omega arith)

-- A system with one file.
abbrev disk : Windows
disk = record {
  State = Bytes;
  create_file = λ name anew s. (some 5, if anew then [] else s);
  starts = λ h r s. true;
  complete = λ h r s. put_at (offset_of r) r.bytes s;
}

disk-IsDisk : IsDisk disk 5
disk-IsDisk = record {
  size = λ s. length s;
  byte = λ i s. get_or s i 0;
  takes = λ r s. refl;
  size-complete = λ r s t c. length-put_at (offset_of r) r.bytes s;
  byte_inside = λ r s j t c l. inside_put_at (offset_of r) r.bytes s j l;
  byte_outside = λ r s i t c l o. outside_put_at (offset_of r) r.bytes s i o l;
}

abbrev here : Passive
here = record {
  before = codes "227 at ";
  h1 = 10;
  h2 = 0;
  h3 = 0;
  h4 = 1;
  p1 = 4;
  p2 = 1;
  behind = codes ".";
}

here-IsPassive : IsPassive here
here-IsPassive = record { accepts = refl; no_open = ground arith; fit = omega arith }

abbrev getting : Client
getting = record (new_client (some no_tls) true) {
  phase = Phase.pasv;
  cmd_in_progress = true;
  cmd_q = pasv_command ∷ fetch none (codes "far") (codes "near") ∷ [];
}

abbrev no_device : FileDevice
no_device = record {
  connected = false;
  type = DeviceType.no_device;
  fd = none;
  fd_sync = none;
  issued = [];
}

abbrev blocks : List Bytes
blocks = codes "ne" ∷ codes "w" ∷ []

-- The second write is completed before the first.
download_any_order_example :
    (e : Client) × (f : FileDevice) × (run
        (download_events clear (passive_text here) (codes "150") blocks true (codes "226"))
        getting
      ≡ ok e)
    × (play (overlapped_calls disk) e.effects (no_device, codes "old one") ≡ went (f, []))
    × (f.issued ≡ block_requests 0 blocks [])
    × (content disk 5 disk-IsDisk (
          complete_all disk 5
            (request Io.written (codes "w") 1 2 ∷ request Io.written (codes "ne") 2 0 ∷ [])
            [])
        ≡ codes "new")
unfolding flatten disk-IsDisk new_client request
download_any_order_example =
    download_any_order disk 5 disk-IsDisk none (codes "far") (codes "near") [] here clear
      (codes "150") (codes "226") blocks true getting (no_device, codes "old one") no_device
      (codes "old one") [] [] 5 here-IsPassive refl refl refl refl refl refl refl (refl, (refl, tt))
      (omega arith, (omega arith, tt)) (omega arith) (unfold play in refl) refl refl refl
      (request Io.written (codes "w") 1 2 ∷ request Io.written (codes "ne") 2 0 ∷ [])
      (Permᴰ.cons refl (Permᴰ.cons refl Permᴰ.nil))
