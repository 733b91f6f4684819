-- ===== src/Ftp/Replay.antt =====
-- What CProtocolFTP (INCLUDE/CProtocolFTP.hpp) asks of its local file, done by the calls of a device.
use cpp_npl.Base.{
  ℕ, ◌≡◌, refl, Bool, true, false, Option, none, some, List, [], ◌∷◌, Bytes, if◌then◌else◌,
  is_empty,
}
use cpp_npl.Device.{Outcome, went, failed, exhausted, ◌>>=◌}
use cpp_npl.Ftp.State.{DcProt, clear, protected, Command, Client, Effect, open_file, write_file}
use cpp_npl.Ftp.Commands.{issue, process_next_cmd}
use cpp_npl.Ftp.Blocks.{given, ended, securing}

-- The constructor of a device for a file, and its `Write`.
pub record FileCalls (A : Type 0) : Type 0 where
  pub make : Bytes → Bool → A → Outcome A
  pub write : Bytes → ℕ → A → Outcome A

-- `InitializeFileDevice` makes the device, and `OnDataChannelRead` writes to it.
abbrev pub on_file : {A : Type 0} → FileCalls A → Effect → A → Outcome A
on_file calls (open_file name create) a = calls.make name create a
on_file calls (write_file b at) a = calls.write b at a
on_file calls _ a = went a

module _ {A : Type 0} (calls : FileCalls A) where
  -- All that was asked, of which the latest stands at the head.
  unfoldable pub play : List Effect → A → Outcome A
  play [] a = went a
  play (e ∷ es) a = play es a >>= on_file calls e

  pub bind_went : (o : Outcome A) → (o >>= λ v. went v) ≡ o
  bind_went (went v) = refl
  bind_went failed = refl
  bind_went exhausted = refl

  pub play-given :
      (sink : Option ℕ) (b : Bytes) (es : List Effect) (a : A)
      → play (given sink b es) a ≡ play es a
  unfolding play
  play-given none b es a = refl
  play-given (some f) b es a = bind_went (play es a)

  pub play-ended : (sink : Option ℕ) (es : List Effect) (a : A) → play (ended sink es) a ≡ play es a
  unfolding play
  play-ended none es a = refl
  play-ended (some f) es a = bind_went (play es a)

  pub play-securing : (p : DcProt) (es : List Effect) (a : A) → play (securing p es) a ≡ play es a
  unfolding play
  play-securing clear es a = refl
  play-securing protected es a = bind_went (play es a)

  -- The next command is only sent.
  pub play-process_next_cmd :
      (c : Client) (a : A) → play (process_next_cmd c).effects a ≡ play c.effects a
  unfolding process_next_cmd issue play
  play-process_next_cmd c a = by_queue c.cmd_in_progress c.cmd_q
    where
      by_queue :
          (b : Bool) (q : List Command)
          → play (if b then c else issue q c).effects a ≡ play c.effects a
      by_queue true q = refl
      by_queue false [] = refl
      by_queue false (cmd ∷ q) = bind_went (play c.effects a)

-- Blocks that have bytes.
abbrev pub AllSome : List Bytes → Type 0
AllSome [] = Unit {0}
AllSome (b ∷ bs) = (is_empty b ≡ false) × AllSome bs
