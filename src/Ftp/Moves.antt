-- ===== src/Ftp/Moves.antt =====
-- The bytes of a transfer in CProtocolFTP (INCLUDE/CProtocolFTP.hpp), and the invariant of a session.
use cpp_npl.Base.{
  ℕ, ◌≡◌, refl, sym, ap, subst, ◌∙◌, inl, inr, Bool, true, Option, none, some, Bytes, if◌then◌else◌,
  Bool-cases, arith,
}
use cpp_npl.Ftp.State.{
  Phase, Client, Result, ok, fault, emit, give, stop_data, write_file, write_data, read_file,
  null_channel, null_file, null_context,
}
use cpp_npl.Ftp.Transfer.{
  end_sink, offer, store, queue_read, send_on, on_data_channel_disconnect, on_data_channel_read,
  on_file_read, on_data_channel_connect, on_data_channel_write, on_file_disconnect, with_channel,
  with_file, add_offset, byte_count,
}
use cpp_npl.Ftp.Session.{plan, Shape, IsMoving, Inv, Safe}
use cpp_npl.Ftp.Plan.{transfer_plan}
use cpp_npl.Ftp.Endings.{front-Safe, moving, Same, Same-Inv, end_sink-Same, closing-Safe}

pub channel-Safe :
    (c : Client) (r : Result) → c.data_channel ≡ true → Safe r → Safe (with_channel c r)
channel-Safe c r ch s = subst (λ t. Safe (if t then r else fault null_channel)) (sym ch) s

pub file-Safe : (c : Client) (r : Result) → c.file_device ≡ true → Safe r → Safe (with_file c r)
file-Safe c r f s = subst (λ t. Safe (if t then r else fault null_file)) (sym f) s

-- The bytes go on to `next`, or the channel is stopped.
offer-Safe :
    (sink : Option ℕ) (answer : Bool) (b : Bytes) (next : Client → Result) (c : Client)
    → Inv c
    → c.data_channel ≡ true
    → ((d : Client) → Same c d → d.read_works ≡ c.read_works → Safe (next d))
    → Safe (offer sink answer b next c)
offer-Safe none answer b next c s ch n = n c (ground arith) refl
offer-Safe (some f) answer b next c s ch n = elim (Bool-cases c.continue_transfer) [
  | inl go ↦
      subst (λ t. Safe (if t then going else halted)) (sym go)
        (n (record (emit (give f b) c) { continue_transfer = answer }) (ground arith) refl)
  | inr stop ↦
      subst (λ t. Safe (if t then going else halted)) (sym stop)
        (channel-Safe c _ ch (Same-Inv c _ (ground arith) s))
]
  where
    going : Result
    going = next (record (emit (give f b) c) { continue_transfer = answer })

    halted : Result
    halted = with_channel c (ok (emit stop_data c))

store-Safe : (b : Bytes) (d : Client) → Inv d → Safe (store b d)
store-Safe b d s = elim (Bool-cases d.file_device) [
  | inl f ↦ subst (λ t. Safe (if t then written else ok d)) (sym f) (Same-Inv d _ (ground arith) s)
  | inr f ↦ subst (λ t. Safe (if t then written else ok d)) (sym f) s
]
  where
    written : Result
    written = ok (record (emit (write_file b d.file_offset) d) {
      file_offset = add_offset d.file_offset (byte_count b);
    })

-- A read that gives a context.
pub reading-Safe : (o : ℕ) (c : Client) → c.read_works ≡ true → Inv c → Safe (queue_read o c)
reading-Safe o c w s =
    subst (λ t. Safe (if t then ok (emit (read_file o) c) else fault null_context)) (sym w)
      (Same-Inv c _ (ground arith) s)

send_on-Safe :
    (b : Bytes) (d : Client)
    → Inv d
    → d.data_channel ≡ true
    → d.file_device ≡ true
    → d.read_works ≡ true
    → Safe (send_on b d)
send_on-Safe b d s ch f w = channel-Safe d _ ch (
    file-Safe d _ f (
      reading-Safe _ (record (emit (write_data b) d) { file_offset = _ }) w
        (Same-Inv d _ (ground arith) s)))

module _ (c : Client) (s : Inv c) (m : IsMoving c.phase) (ch : c.data_channel ≡ true) where
  pub on_data_channel_disconnect-Safe : Safe (on_data_channel_disconnect c)
  unfolding on_data_channel_disconnect
  on_data_channel_disconnect-Safe =
      let (b, h, _, _) = moving c.phase c m s ch in
      let (cmd, rest, q, p) = transfer_plan c.cmd_q h in
      let e = end_sink-Same cmd.sink c in
      front-Safe _ c cmd rest q (
        closing-Safe b'0' (end_sink cmd.sink c) refl refl (subst IsMoving (sym e.phase) m)
          (e.cmd_in_progress ∙ b) (ap (plan true) e.cmd_q ∙ h))

  pub on_data_channel_read-Safe :
      (answer : Bool) (b : Bytes) → Safe (on_data_channel_read answer b c)
  unfolding on_data_channel_read
  on_data_channel_read-Safe answer b =
      let (_, h, _, _) = moving c.phase c m s ch in
      let (cmd, rest, q, p) = transfer_plan c.cmd_q h in
      front-Safe _ c cmd rest q
        (offer-Safe cmd.sink answer b (store b) c s ch (λ d e r. store-Safe b d (Same-Inv c d e s)))

-- A client with an open channel has a transfer command in front.
pub front : (p : Phase) (c : Client) → Shape p c → c.data_channel ≡ true → plan true c.cmd_q ≡ true
front Phase.pasv c s ch = ground arith
front _ c s ch = ground arith

module _ (c : Client) (s : Inv c) (ch : c.data_channel ≡ true) where
  pub on_data_channel_connect-Safe : Safe (on_data_channel_connect c)
  unfolding on_data_channel_connect
  on_data_channel_connect-Safe =
      let (cmd, rest, q, _) = transfer_plan c.cmd_q (front c.phase c s ch) in
      front-Safe _ c cmd rest q s

  pub on_data_channel_write-Safe : (b : Bytes) → Safe (on_data_channel_write b c)
  unfolding on_data_channel_write
  on_data_channel_write-Safe b =
      let (cmd, rest, q, _) = transfer_plan c.cmd_q (front c.phase c s ch) in
      front-Safe _ c cmd rest q s

  pub on_file_disconnect-Safe : Safe (on_file_disconnect c)
  unfolding on_file_disconnect
  on_file_disconnect-Safe = channel-Safe c _ ch (Same-Inv c _ (ground arith) s)

  pub on_file_read-Safe :
      (answer : Bool) (b : Bytes)
      → c.file_device ≡ true
      → c.read_works ≡ true
      → Safe (on_file_read answer b c)
  unfolding on_file_read
  on_file_read-Safe answer b f w =
      let (cmd, rest, q, _) = transfer_plan c.cmd_q (front c.phase c s ch) in
      front-Safe _ c cmd rest q (
        offer-Safe cmd.sink answer b (send_on b) c s ch (λ d e r.
          send_on-Safe b d (Same-Inv c d e s) (e.data_channel ∙ ch) (e.file_device ∙ f) (r ∙ w)))
