-- ===== src/Ftp/Transfers.antt =====
-- The file that a transfer of CProtocolFTP opens, and the first reply to a transfer command, keep the
-- invariant of a session (INCLUDE/CProtocolFTP.hpp).
use cpp_npl.Base.{
  ◌≡◌, refl, sym, ap, subst, ◌∙◌, inl, inr, true, false, not, List, [], ◌∷◌, is_empty,
  if◌then◌else◌, Bool-cases, arith,
}
use cpp_npl.Ftp.State.{
  Phase, DcProt, clear, protected, Command, Client, Result, ok, fault, ◌>>=◌, emit, empty_queue,
  assertion, open_file,
}
use cpp_npl.Ftp.Transfer.{
  process_data_cmd_response, trigger_data_transfer, initialize_file_device, begin_transfer,
  with_file, queue_read, is_stor, is_list, is_retr, open_local,
}
use cpp_npl.Ftp.Session.{
  plan, has_local, Shape, InTransfer, IsMoving, Inv, Safe, CanRead, in_front_stor,
}
use cpp_npl.Ftp.Plan.{transfer_plan}
use cpp_npl.Ftp.Endings.{front-Safe, moving, Same-Inv}
use cpp_npl.Ftp.Moves.{channel-Safe, file-Safe, reading-Safe}

stor_local :
    (cmd : Command) (rest : List Command)
    → plan true (cmd ∷ rest) ≡ true
    → is_stor cmd.verb ≡ true
    → has_local (cmd ∷ rest) ≡ true
stor_local cmd rest h v = ground arith

-- An upload has its file at hand once it moves.
trigger-Safe :
    (c : Client)
    → Inv c
    → plan true c.cmd_q ≡ true
    → c.file_device ≡ has_local c.cmd_q
    → CanRead c
    → Safe (trigger_data_transfer c)
unfolding trigger_data_transfer
trigger-Safe c s h f r =
    let (cmd, rest, q, _) = transfer_plan c.cmd_q h in
    front-Safe _ c cmd rest q (elim (Bool-cases (is_stor cmd.verb)) [
      | inl v ↦
          let l = stor_local cmd rest (ap (plan true) (sym q) ∙ h) v in
          subst (λ t. Safe (if t then reading else ok c)) (sym v)
            (file-Safe c _ (f ∙ ap has_local q ∙ l)
              (reading-Safe c.file_offset c (r (ap in_front_stor q ∙ v)) s))
      | inr v ↦ subst (λ t. Safe (if t then reading else ok c)) (sym v) s
    ])
  where
    reading : Result
    reading = with_file c (queue_read c.file_offset c)

pub trigger_data_transfer-Safe :
    (c : Client)
    → Inv c
    → IsMoving c.phase
    → c.data_channel ≡ true
    → CanRead c
    → Safe (trigger_data_transfer c)
trigger_data_transfer-Safe c s m ch r =
    let (_, h, _, f) = moving c.phase c m s ch in trigger-Safe c s h f r

begin_transfer-Safe :
    (p : DcProt) (c : Client)
    → Inv c
    → plan true c.cmd_q ≡ true
    → c.file_device ≡ has_local c.cmd_q
    → c.data_channel ≡ true
    → (p ≡ clear → CanRead c)
    → Safe (begin_transfer p c)
begin_transfer-Safe clear c s h f ch r = trigger-Safe c s h f (r refl)
begin_transfer-Safe protected c s h f ch r = channel-Safe c _ ch (Same-Inv c _ (ground arith) s)

-- The client once the file of a command is open.
abbrev opened : Command → Client → Client
opened cmd c = record (emit (open_file cmd.local (is_retr cmd.verb)) c) {
  file_device = true;
  file_offset = 0;
  continue_transfer = true;
}

initialize_without_file :
    (c : Client) (cmd : Command) (rest : List Command)
    → c.cmd_q ≡ cmd ∷ rest
    → is_empty cmd.local ≡ true
    → initialize_file_device c ≡ ok (record c { continue_transfer = true })
unfolding initialize_file_device
initialize_without_file c cmd rest q l =
    ap
      (λ t. elim t [
        | [] ↦ fault empty_queue
        | k ∷ ks ↦
            if is_empty k.local then ok (record c { continue_transfer = true }) else open_local k c
      ])
      q
    ∙ ap (λ t. if t then ok (record c { continue_transfer = true }) else open_local cmd c) l

initialize_with_file :
    (c : Client) (cmd : Command) (rest : List Command)
    → c.cmd_q ≡ cmd ∷ rest
    → is_empty cmd.local ≡ false
    → is_list cmd.verb ≡ false
    → c.file_device ≡ false
    → initialize_file_device c ≡ ok (opened cmd c)
unfolding initialize_file_device open_local
initialize_with_file c cmd rest q l v f =
    ap
      (λ t. elim t [
        | [] ↦ fault empty_queue
        | k ∷ ks ↦
            if is_empty k.local then ok (record c { continue_transfer = true }) else open_local k c
      ])
      q
    ∙ ap (λ t. if t then ok (record c { continue_transfer = true }) else open_local cmd c) l
    ∙ ap
        (λ t.
          if t
          then fault assertion
          else (if is_list cmd.verb then fault assertion else ok (opened cmd c)))
        f
    ∙ ap (λ t. if t then fault assertion else ok (opened cmd c)) v

list_local :
    (cmd : Command) (rest : List Command)
    → plan true (cmd ∷ rest) ≡ true
    → is_empty cmd.local ≡ false
    → is_list cmd.verb ≡ false
list_local cmd rest h l = ground arith

-- The file that a transfer command asks for is open once its preliminary reply has come.
pub starting-Safe :
    (c : Client)
    → c.phase ≡ Phase.prelim
    → InTransfer true false c
    → (c.dc_prot ≡ clear → CanRead c)
    → Safe (process_data_cmd_response b'1' c)
unfolding process_data_cmd_response
starting-Safe c e (b, h, ch, f) r =
    let (cmd, rest, q, _) = transfer_plan c.cmd_q h in
    elim (Bool-cases (is_empty cmd.local)) [
      | inl l ↦
          let d : Client = record c { continue_transfer = true } in
          let none_there : d.file_device ≡ has_local d.cmd_q =
            f ∙ sym (ap has_local q ∙ ap not l) in
          subst Next (sym (initialize_without_file c cmd rest q l)) (
            begin_transfer-Safe d.dc_prot d
              (subst (λ p. Shape p d) (sym e) (b, h, refl, ground arith)) h none_there ch r)
      | inr l ↦
          let v = list_local cmd rest (ap (plan true) (sym q) ∙ h) l in
          let d : Client = opened cmd c in
          let there : d.file_device ≡ has_local d.cmd_q = sym (ap has_local q ∙ ap not l) in
          subst Next (sym (initialize_with_file c cmd rest q l v f)) (
            begin_transfer-Safe d.dc_prot d
              (subst (λ p. Shape p d) (sym e) (b, h, refl, ground arith)) h there ch r)
    ]
  where
    Next : Result → Type 0
    Next r = Safe (r >>= λ d. begin_transfer d.dc_prot d)
