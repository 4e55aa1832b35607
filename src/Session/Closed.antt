-- ===== src/Session/Closed.antt =====
-- The descriptors of `assignment4`: which ones its parts leave open, and where it ends.
use grnvs.Prelude.{ℕ, ◌+◌, ◌≡◌, true, false, [], ◌∷◌, ◌++◌, ap, Bool-cases, inl, inr, length}
use grnvs.Memory.{Bytes}
use grnvs.Decimal.{decimal}
use grnvs.Netstring.{Order, send_message}
use grnvs.Netstring.Texts.{codes}
use grnvs.Session.{
  Calls, Client, done, Cmd, ◌>>◌, sd_control, sd_listen, sd_data, close_all, opened, close, control,
  data_socket, on, require, send_text, receive, receive_more, check, check_token, check_kind,
  take_token, restart, advance, greet, open_data, deliver, send_dtoken, finish, protocol,
  assignment4,
}
use grnvs.Session.Closing.{
  Flags, flags, closed, Leaves, Takes, Keeps, Takes-after, Keeps-after, Keeps-bind, Keeps-on,
  Keeps-send_text, Keeps-receive, Keeps-receive_more, Keeps-check, Keeps-check_token,
  Keeps-send_dtoken, Keeps-check_kind, Keeps-advance, Keeps-take_token, Takes-opened, Takes-close,
  Takes-require,
}

module _ (calls : Calls) (order : Order) (fuel : ℕ) (nick msg : Bytes) where
  Keeps-greet : Keeps calls (greet order fuel nick)
  unfolding greet
  Keeps-greet =
      Keeps-after calls (on control (send_message order (codes "C GRNVS V:1.0"))) _
        (Keeps-on calls control (send_message order (codes "C GRNVS V:1.0")))
        (Keeps-after calls (receive order fuel control) _ (Keeps-receive calls order fuel control) (
          Keeps-after calls (check order control (codes "S GRNVS V:1.0")) _
            (Keeps-check calls order control (codes "S GRNVS V:1.0"))
            (Keeps-after calls advance _ (Keeps-advance calls) (
              Keeps-after calls (send_text order control (codes "C " ++ nick)) _
                (Keeps-send_text calls order control (codes "C " ++ nick))
                (Keeps-after calls (receive_more order fuel control) _
                  (Keeps-receive_more calls order fuel control)
                  (Keeps-after calls (check_kind order control b'S' (codes "S <token>")) _
                    (Keeps-check_kind calls order control b'S' (codes "S <token>"))
                    (Keeps-bind calls (λ s. done s.start s) _ (λ f s e. e)
                      (λ start.
                        Keeps-after calls (take_token (start + 2)) _
                          (Keeps-take_token calls (start + 2)) (Keeps-advance calls)))))))))

  -- A failed call closes both sockets that are open.
  both :
      (s : Client)
      → flags s ≡ (true, true, false)
      → flags (close_all (sd_control ∷ sd_listen ∷ []) s) ≡ closed
  both s e = ap (λ (f : Flags). (false, false, f.2)) e

  Takes-open_data : Takes calls (true, false, false) (true, true, true) (open_data order calls)
  unfolding open_data
  Takes-open_data =
      let waiting : Flags = (true, true, false) in
      let closing = sd_control ∷ sd_listen ∷ [] in
      let report = send_text order control (codes "C " ++ decimal calls.port) in
      Takes-after calls (true, false, false) (true, false, false) (true, true, true)
        (require calls.socket_listen []) _
        (Takes-require calls (true, false, false) calls.socket_listen []
          (λ s e failed. inr (failed, e)))
        (Takes-after calls (true, false, false) waiting (true, true, true) (opened sd_listen) _
          (Takes-opened calls (true, false, false) sd_listen)
          (Takes-after calls waiting waiting (true, true, true) (require calls.bind closing) _
            (Takes-require calls waiting calls.bind closing (λ s e _. inl (both s e)))
            (Takes-after calls waiting waiting (true, true, true) (require calls.listen closing) _
              (Takes-require calls waiting calls.listen closing (λ s e _. inl (both s e)))
              (Takes-after calls waiting waiting (true, true, true) report _
                (Keeps-send_text calls order control (codes "C " ++ decimal calls.port) waiting)
                (Takes-after calls waiting waiting (true, true, true) (require calls.accept closing)
                  _ (Takes-require calls waiting calls.accept closing (λ s e _. inl (both s e)))
                  (Takes-opened calls waiting sd_data))))))

  -- Behind a step that keeps the descriptors.
  Takes-keeping :
      {A B : Type 0} (f f' : Flags) (first : Cmd A) (second : Cmd B)
      → Keeps calls first
      → Takes calls f f' second
      → Takes calls f f' (first >> second)
  Takes-keeping f f' first second h k = Takes-after calls f f f' first second (h f) k

  Takes-deliver : Takes calls (true, true, true) (true, false, false) (deliver order fuel nick msg)
  unfolding deliver restart
  Takes-deliver =
      let f : Flags = (true, true, true) in
      let f' : Flags = (true, false, false) in
      Takes-keeping f f' restart _ (λ f s e. e)
        (Takes-keeping f f' (receive order fuel data_socket) _
          (Keeps-receive calls order fuel data_socket)
          (Takes-keeping f f' (check order data_socket (codes "T GRNVS V:1.0")) _
            (Keeps-check calls order data_socket (codes "T GRNVS V:1.0"))
            (Takes-keeping f f' advance _ (Keeps-advance calls) (
              Takes-keeping f f' (send_text order data_socket (codes "D " ++ nick)) _
                (Keeps-send_text calls order data_socket (codes "D " ++ nick))
                (Takes-keeping f f' (receive_more order fuel data_socket) _
                  (Keeps-receive_more calls order fuel data_socket)
                  (Takes-keeping f f' (check_token order) _ (Keeps-check_token calls order) (
                    Takes-keeping f f' advance _ (Keeps-advance calls) (
                      Takes-keeping f f' (send_text order data_socket (codes "D " ++ msg)) _
                        (Keeps-send_text calls order data_socket (codes "D " ++ msg))
                        (Takes-keeping f f' (receive_more order fuel data_socket) _
                          (Keeps-receive_more calls order fuel data_socket)
                          (Takes-keeping f f'
                            (check_kind order data_socket b'T' (codes "T <dtoken>")) _
                            (Keeps-check_kind calls order data_socket b'T' (codes "T <dtoken>"))
                            (Takes-keeping f f' (take_token 2) _ (Keeps-take_token calls 2) (
                              Takes-keeping f f' advance _ (Keeps-advance calls) (
                                Takes-after calls f (true, false, true) f' (close sd_listen)
                                  (close sd_data) (Takes-close calls f sd_listen)
                                  (Takes-close calls (true, false, true) sd_data))))))))))))))

  Takes-finish : Takes calls (true, false, false) closed (finish order fuel msg)
  unfolding finish
  Takes-finish =
      let f : Flags = (true, false, false) in
      let more = Keeps-receive_more calls order fuel control in
      Takes-keeping f closed (receive_more order fuel control) _ more (
        Takes-keeping f closed (check order control (codes "S " ++ decimal (length msg))) _
          (Keeps-check calls order control (codes "S " ++ decimal (length msg)))
          (Takes-keeping f closed advance _ (Keeps-advance calls) (
            Takes-keeping f closed (send_dtoken order) _ (Keeps-send_dtoken calls order) (
              Takes-keeping f closed (receive_more order fuel control) _ more (
                Takes-keeping f closed (check order control (codes "S ACK")) _
                  (Keeps-check calls order control (codes "S ACK"))
                  (Takes-keeping f closed advance _ (Keeps-advance calls)
                    (Takes-close calls f sd_control)))))))

  Takes-protocol : Takes calls closed closed (protocol order fuel calls nick msg)
  unfolding protocol
  Takes-protocol =
      let f : Flags = (true, false, false) in
      let all : Flags = (true, true, true) in
      Takes-after calls closed closed closed (require calls.socket_control []) _
        (Takes-require calls closed calls.socket_control [] (λ s e _. inl e))
        (Takes-after calls closed f closed (opened sd_control) _
          (Takes-opened calls closed sd_control)
          (Takes-after calls f f closed (require calls.connect (sd_control ∷ [])) _
            (Takes-require calls f calls.connect (sd_control ∷ [])
              (λ s e _. inl (ap (λ (g : Flags). (false, g.1, g.2)) e)))
            (Takes-keeping f closed (greet order fuel nick) _ Keeps-greet (
              Takes-after calls f all closed (open_data order calls) _ Takes-open_data (
                Takes-after calls all f closed (deliver order fuel nick msg) (finish order fuel msg)
                  Takes-deliver Takes-finish)))))

  -- A run of `assignment4` that starts with none of sdC, sdL and sdD open comes to its end only with all of
  -- them closed, and the process exits only by `checkMessage`, with status -1, or with status 1 for a
  -- failed call; then too all of them are closed, but for sdC where the second `socket` fails.
  pub assignment4-Leaves :
      (s : Client)
      → flags s ≡ closed
      → Leaves calls closed (assignment4 order fuel calls nick msg s)
  unfolding assignment4
  assignment4-Leaves s e = elim (Bool-cases calls.inet_pton) [
    | inl good ↦ rw (good, assignment4) (Takes-protocol s e)
    | inr bad ↦ rw (bad, assignment4) e
  ]
