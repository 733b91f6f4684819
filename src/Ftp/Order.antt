-- ===== src/Ftp/Order.antt =====
-- Replies and the events of the data channel, one behind the other: what CProtocolFTP
-- (INCLUDE/CProtocolFTP.hpp) has done once both have come.
use cpp_npl.Base.{ℕ, ◌≡◌, ap, ◌∙◌, true, false, List, ◌∷◌, Bytes, get_or, is_empty, ◌≤◌, ◌⊎◌, arith}
use cpp_npl.Ftp.State.{
  Phase, clear, Response, Command, Client, ok, ◌>>=◌, Verb, sent, tell, open_file,
}
use cpp_npl.Ftp.Commands.{
  command_line, phase_for, process_next_cmd, skip_command, set_current_dir, queue_general,
}
use cpp_npl.Ftp.Transfer.{
  process_data_cmd_response, on_data_channel_disconnect, drop_channel, drop_file, end_sink,
}
use cpp_npl.Ftp.Machine.{fsm, scan_rows, run_action, state_machine, on_reply}
use cpp_npl.Ftp.Session.{reply, data_disconnects, step}

-- What a transfer leaves once the server has called it complete and the data channel has closed.
abbrev pub completed : Bytes → Command → List Command → Client → Client
completed text cmd rest c = record (drop_file (drop_channel (end_sink cmd.sink c))) {
  messages = text ∷ c.messages;
  phase = Phase.final;
  cmd_q = rest;
  cmd_in_progress = false;
}

-- The handlers of a reply and of the end of the data channel, with what they call.
abbrev handlers : Unit {0}
unfolding step on_reply state_machine scan_rows fsm run_action on_data_channel_disconnect
    process_data_cmd_response skip_command process_next_cmd phase_for set_current_dir queue_general
handlers = tt

module _ (c : Client) (cmd : Command) (rest : List Command) (text : Bytes)
    (p : c.phase ≡ Phase.prelim) (q : c.cmd_q ≡ cmd ∷ rest) (ch : c.data_channel ≡ true)
    (two : get_or text 0 0 ≡ b'2') where
  reply_first :
      (step (reply text) c >>= step data_disconnects)
      ≡ ok (process_next_cmd (completed text cmd rest c))
  unfolding handlers
  reply_first = ground arith

  disconnect_first :
      (step data_disconnects c >>= step (reply text))
      ≡ ok (process_next_cmd (completed text cmd rest c))
  unfolding handlers
  disconnect_first = ground arith

  -- A transfer whose bytes have been announced ends the same whether the server's completion reply
  -- or the close of the data channel is seen first: both orders succeed with the same client, in
  -- which the file and the channel are let go, the transfer command is off the queue, once, and
  -- the next command is sent.
  pub completion_order :
      ((step (reply text) c >>= step data_disconnects)
        ≡ ok (process_next_cmd (completed text cmd rest c)))
      × ((step data_disconnects c >>= step (reply text))
          ≡ ok (process_next_cmd (completed text cmd rest c)))
  completion_order = (reply_first, disconnect_first)

-- The first bytes that a reply to a general command may have.
abbrev pub IsReplyCode : ℕ → Type 0
IsReplyCode d = (b'1' ≤ d) × (d ≤ b'5')

-- A reply to a general command, of any class, is handed to the command's callback, takes the
-- command off the queue and sends the next one, whose state the client then has.
pub general_reply :
    (c : Client) (cmd next : Command) (rest : List Command) (f : ℕ) (text : Bytes)
    → c.phase ≡ Phase.gen
    → c.cmd_q ≡ cmd ∷ next ∷ rest
    → cmd.response ≡ Response.notify f
    → IsReplyCode (get_or text 0 0)
    → on_reply text c
      ≡ ok (record c {
        phase = phase_for next.verb;
        cmd_in_progress = true;
        cmd_q = next ∷ rest;
        messages = text ∷ c.messages;
        effects = sent (command_line next.verb next.remote) ∷ tell f text ∷ c.effects;
      })
unfolding handlers
general_reply c cmd next rest f text p q r d = ground arith

-- A refused PASV drops itself and its transfer command, and no other, and sends what follows.
pub pasv_refused :
    (c : Client) (cmd transfer next : Command) (rest : List Command) (text : Bytes)
    → c.phase ≡ Phase.pasv
    → c.cmd_q ≡ cmd ∷ transfer ∷ next ∷ rest
    → ((get_or text 0 0 ≡ b'4') ⊎ (get_or text 0 0 ≡ b'5'))
    → on_reply text c
      ≡ ok (record c {
        phase = phase_for next.verb;
        cmd_in_progress = true;
        cmd_q = next ∷ rest;
        messages = text ∷ c.messages;
        effects = sent (command_line next.verb next.remote) ∷ c.effects;
      })
unfolding handlers
pasv_refused c cmd transfer next rest text p q d = ground arith

-- The client of a download whose data channel has closed, once the preliminary reply comes.
abbrev late : Bytes → Command → Client → Client
late text cmd c = record (drop_file (drop_channel (end_sink cmd.sink c))) {
  messages = text ∷ c.messages;
  phase = Phase.prelim;
  file_device = true;
  file_offset = 0;
  continue_transfer = true;
  effects = open_file cmd.local true ∷ (drop_file (drop_channel (end_sink cmd.sink c))).effects;
}

next-keeps :
    (c : Client)
    → ((process_next_cmd c).file_device ≡ c.file_device) × ((process_next_cmd c).cmd_q ≡ c.cmd_q)
unfolding process_next_cmd
next-keeps c = ground arith

module _ (c : Client) (cmd : Command) (rest : List Command) (first last : Bytes)
    (p : c.phase ≡ Phase.transfer) (q : c.cmd_q ≡ cmd ∷ rest) (v : cmd.verb ≡ Verb.retr)
    (l : is_empty cmd.local ≡ false) (n : c.dc_prot ≡ clear) (f : c.file_device ≡ false)
    (ch : c.data_channel ≡ true) (a : get_or first 0 0 ≡ b'1') (b : get_or last 0 0 ≡ b'2') where
  late_reply : (step data_disconnects c >>= step (reply first)) ≡ ok (late first cmd c)
  unfolding handlers
  late_reply = ground arith

  after_both : Client
  after_both = record (late first cmd c) {
    messages = last ∷ first ∷ c.messages;
    phase = Phase.final;
    cmd_q = rest;
    cmd_in_progress = false;
  }

  late_completion : step (reply last) (late first cmd c) ≡ ok (process_next_cmd after_both)
  unfolding handlers after_both
  late_completion = ground arith

  -- The server closes the data channel before its preliminary reply is seen: the file that the
  -- reply opens is still set when the completion reply has taken the command off the queue.
  pub early_close_leaves_file :
      (d : Client) × ((step data_disconnects c >>= step (reply first) >>= step (reply last)) ≡ ok d)
      × (d.file_device ≡ true)
      × (d.cmd_q ≡ rest)
  unfolding after_both
  early_close_leaves_file = (
    process_next_cmd after_both,
    ap (λ r. r >>= step (reply last)) late_reply ∙ late_completion,
    (next-keeps after_both).0,
    (next-keeps after_both).1,
  )
