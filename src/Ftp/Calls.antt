-- ===== src/Ftp/Calls.antt =====
-- The user's calls of CProtocolFTP (INCLUDE/CProtocolFTP.hpp) keep the invariant of a session.
use cpp_npl.Base.{
  ℕ, ◌≡◌, refl, sym, ap, subst, inl, inr, Bool, true, false, ◌&&◌, Option, List, [], ◌∷◌, ◌++◌,
  append_assoc, Bytes, is_empty, Bool-cases, arith,
}
use cpp_npl.Ftp.State.{Phase, DcProt, Tls, Command, Client, Verb}
use cpp_npl.Ftp.Commands.{
  is_transfer_command, is_pasv, is_null, process_next_cmd, enqueue, channel_tls, level_commands,
  set_dc_prot_level, upload, download, list_directory, queue_general,
}
use cpp_npl.Ftp.Session.{plan, starts_pasv, has_local, Shape, Inv, Safe}
use cpp_npl.Ftp.Plan.{MayRest, process_next_cmd-Inv}

plan-append :
    (due : Bool) (q r : List Command)
    → plan due q ≡ true
    → plan false r ≡ true
    → plan due (q ++ r) ≡ true
plan-append true [] r p h = cc
plan-append false [] r p h = h
plan-append due (cmd ∷ q) r p h = ground (arith, plan-append (is_pasv cmd.verb) q r)

starts_pasv-append :
    (q r : List Command)
    → is_empty q ≡ false
    → (starts_pasv (q ++ r) ≡ starts_pasv q) × (is_empty (q ++ r) ≡ false)
starts_pasv-append [] r h = cc
starts_pasv-append (cmd ∷ q) r h = (refl, refl)

pasv_not_empty : (q : List Command) → starts_pasv q ≡ true → is_empty q ≡ false
pasv_not_empty [] h = cc
pasv_not_empty (cmd ∷ q) h = refl

has_local-append : (q r : List Command) → plan true q ≡ true → has_local (q ++ r) ≡ has_local q
has_local-append [] r h = cc
has_local-append (cmd ∷ q) r h = refl

-- More commands behind those of a busy client.
enqueue-Shape :
    (p : Phase) (c : Client) (cmds : List Command)
    → plan false cmds ≡ true
    → c.cmd_in_progress ≡ true
    → Shape p c
    → Shape p (enqueue cmds c)
enqueue-Shape Phase.pasv c cmds h b s =
    ground (
      arith,
      plan-append false c.cmd_q cmds,
      pasv_not_empty c.cmd_q,
      starts_pasv-append c.cmd_q cmds,
    )
enqueue-Shape Phase.gen c cmds h b s =
    ground (arith, plan-append false c.cmd_q cmds, starts_pasv-append c.cmd_q cmds)
enqueue-Shape Phase.transfer c cmds h b s = ground (arith, plan-append true c.cmd_q cmds)
enqueue-Shape Phase.prelim c cmds h b s =
    ground (arith, plan-append true c.cmd_q cmds, has_local-append c.cmd_q cmds)
enqueue-Shape Phase.final c cmds h b s =
    ground (arith, plan-append true c.cmd_q cmds, has_local-append c.cmd_q cmds)
enqueue-Shape _ c cmds h b s = ground (arith, plan-append false c.cmd_q cmds)

resting :
    (p : Phase) (c : Client)
    → Shape p c
    → c.cmd_in_progress ≡ false
    → MayRest p × (c.cmd_q ≡ []) × (c.data_channel ≡ false) × (c.file_device ≡ false)
resting Phase.pasv c s i = ground arith
resting _ c s i = ground arith

process_busy : (c : Client) → c.cmd_in_progress ≡ true → process_next_cmd c ≡ c
unfolding process_next_cmd
process_busy c b = rw (b, process_next_cmd)

submit-Inv :
    (c : Client) (cmds : List Command)
    → Inv c
    → plan false cmds ≡ true
    → Inv (process_next_cmd (enqueue cmds c))
submit-Inv c cmds s h = elim (Bool-cases c.cmd_in_progress) [
  | inl b ↦ subst Inv (sym (process_busy (enqueue cmds c) b)) (enqueue-Shape c.phase c cmds h b s)
  | inr i ↦
      let (m, e, ch, f) = resting c.phase c s i in
      process_next_cmd-Inv (enqueue cmds c) cmds i (ap (λ q. q ++ cmds) e) h m ch f
]

-- `SetDCProtLevel` and the commands behind it.
level_plan :
    (t : Tls) (p : DcProt) (cmds : List Command)
    → plan false cmds ≡ true
    → plan false (level_commands t p ++ cmds) ≡ true
level_plan Tls.no_tls p cmds h = h
level_plan Tls.explicit p cmds h = h
level_plan Tls.implicit p cmds h = h

submit_with_level-Inv :
    (c : Client) (p : DcProt) (cmds : List Command)
    → Inv c
    → plan false cmds ≡ true
    → Inv (process_next_cmd (enqueue cmds (set_dc_prot_level p c)))
unfolding set_dc_prot_level
submit_with_level-Inv c p cmds s h =
    subst (λ q. Inv (process_next_cmd (record c { cmd_q = q })))
      (sym (append_assoc c.cmd_q (level_commands (channel_tls c) p) cmds))
      (submit-Inv c (level_commands (channel_tls c) p ++ cmds) s
        (level_plan (channel_tls c) p cmds h))

module _ (c : Client) (s : Inv c) where
  pub upload-Safe :
      (sink : Option ℕ) (remote local : Bytes) (p : DcProt)
      → is_empty remote ≡ false
      → is_empty local ≡ false
      → Safe (upload sink remote local p c)
  unfolding upload
  upload-Safe sink remote local p hr hl = rw (hr, hl) (submit_with_level-Inv c p _ s (rw hl refl))

  pub download-Safe :
      (sink : Option ℕ) (remote local : Bytes) (p : DcProt)
      → is_empty remote ≡ false
      → is_null sink && is_empty local ≡ false
      → Safe (download sink remote local p c)
  unfolding download
  download-Safe sink remote local p hr hl = rw (hr, hl) (submit_with_level-Inv c p _ s refl)

  pub list_directory-Safe :
      (sink : Option ℕ) (remote : Bytes) (p : DcProt)
      → is_null sink ≡ false
      → Safe (list_directory sink remote p c)
  unfolding list_directory
  list_directory-Safe sink remote p h = rw h (submit_with_level-Inv c p _ s refl)

  -- A command that is neither PASV nor a transfer.
  pub queue_general-Inv :
      (v : Verb) (arg : Bytes) (cbk : Option ℕ)
      → is_transfer_command v ≡ false
      → is_pasv v ≡ false
      → Inv (queue_general v arg cbk c)
  unfolding queue_general
  queue_general-Inv v arg cbk t n = submit-Inv c _ s (ground arith)
