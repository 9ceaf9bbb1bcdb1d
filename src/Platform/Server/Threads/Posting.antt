-- ===== src/Platform/Server/Threads/Posting.antt =====
-- What the threads of `thread_pool_` post on connections: messages are added and stay.
use mathlib.Core.List.{append-nil, append_assoc}
use security_transmission_pl.Base.{
  ℕ, ◌≡◌, refl, ap, sym, ◌∙◌, Bool, true, false, Option, none, some, List, [], ◌∷◌, ◌++◌, not,
  if◌then◌else◌, ◌==◌, Bool-cases, inl, inr, arith,
}
use security_transmission_pl.Base.Result.{Result, ok, throws, undefined}
use security_transmission_pl.Net.Message.{Message}
use security_transmission_pl.Net.Connection.{Connection, Posted, posted_send, send}
use security_transmission_pl.Net.ServerInterface.{send_to}
use security_transmission_pl.Proto.Msg.{NetMsgType}
use security_transmission_pl.Crypto.Rsa
use security_transmission_pl.Platform.AesKey.{len16, get_aes_rand_str}
use security_transmission_pl.Platform.World
use security_transmission_pl.Platform.World.{
  Env, World, M, chain, exists, write_file, read_file, remove, registered, make_logger,
}
use security_transmission_pl.Platform.Server.{check_sign, hash_of, logger_name, reply, respond_msg}
use security_transmission_pl.Platform.Server.Threads.{
  Pc, at_exists, at_taken, at_write, at_check, at_refuse, at_remove, at_reply, finished, goes_on,
  Job, path_of, step,
}
use security_transmission_pl.Platform.Server.Threads.Isolation.{goes_on-world}

-- A message is among what was posted on a connection.
pub record IsPosted (m : Message NetMsgType) (ps : List (Posted NetMsgType)) : Type 0 where
  pub earlier : List (Posted NetMsgType)
  pub later : List (Posted NetMsgType)
  pub there : ps ≡ earlier ++ posted_send m ∷ later

-- What a connection had posted is still posted, with more behind it.
abbrev pub Grows : {L : Type 0} → ℕ → World L → World L → Type 0
Grows h w v = (more : List (Posted NetMsgType)) × ((v.heap h).posted ≡ (w.heap h).posted ++ more)

Grows-same : {L : Type 0} (h : ℕ) (w v : World L) → v.heap ≡ w.heap → Grows h w v
Grows-same h w v e = ([], ap (λ heap. (heap h).posted) e ∙ sym (append-nil (w.heap h).posted))

pub IsPosted-Grows :
    {L : Type 0} (h : ℕ) (w v : World L) (m : Message NetMsgType)
    → Grows h w v
    → IsPosted m (w.heap h).posted
    → IsPosted m (v.heap h).posted
IsPosted-Grows h w v m (more, e) p = record {
  earlier = p.earlier;
  later = p.later ++ more;
  there = e ∙ ap (λ ps. ps ++ more) p.there ∙ append_assoc p.earlier (posted_send m ∷ p.later) more;
}

module _ {Key L : Type 0} (e : Env Key L) (server_id : List ℕ) where
  Grows-chain :
      {A B : Type 0} (h : ℕ) (r : Result A) (w : World L) (f : A → M L B)
      → ((a : A) → Grows h w (f a w).1)
      → Grows h w (chain (r, w) f).1
  Grows-chain h (ok a) w f g = g a
  Grows-chain h (throws x) w f g = Grows-same h w w refl
  Grows-chain h undefined w f g = Grows-same h w w refl

  Grows-send :
      (h client : ℕ) (m : Message NetMsgType) (w : World L)
      → Grows h w (record w { heap = send_to (some client) m w.heap })
  unfolding send_to send
  Grows-send h client m w = elim (Bool-cases (h == client)) [
    | inl same ↦ (posted_send m ∷ [], ground (arith, same))
    | inr other ↦ ([], rw other (sym (append-nil (w.heap h).posted)))
  ]

  reply-Grows :
      (h : ℕ) (j : Job) (w : World L)
      → Grows h w (reply e server_id j.client j.info (path_of e server_id j) w).1
  unfolding reply read_file World.send
  reply-Grows h j w =
      Grows-chain h
        (Rsa.encrypt_pub_key e.ssl (Rsa.of_public_file e.ssl (w.files (path_of e server_id j)))
          (get_aes_rand_str e.rand e.draw len16) true)
        w _
        (λ a. Grows-chain h (respond_msg e server_id j.info a) w _ (λ m. Grows-send h j.client m w))

  registered-Grows :
      (h : ℕ) (o : Option L) (w : World L) (f : Unit {0} → Pc)
      → Grows h w (goes_on (registered o w) f).1
  registered-Grows h none w f = Grows-same h w w refl
  registered-Grows h (some registry) w f = Grows-same h w (record w { loggers = registry }) refl

  written-Grows :
      (h : ℕ) (can : Bool) (w v : World L) → v.heap ≡ w.heap → Grows h w (if can then v else w)
  written-Grows h true w v s = Grows-same h w v s
  written-Grows h false w v s = Grows-same h w w refl

  -- No access of a thread takes back what was posted.
  pub step-Grows : (h : ℕ) (j : Job) (pc : Pc) (w : World L) → Grows h w (step e server_id j pc w).1
  unfolding step exists write_file check_sign read_file remove make_logger
  step-Grows h j at_exists w = Grows-same h w w refl
  step-Grows h j at_taken w = registered-Grows h (e.basic_logger w.loggers logger_name) w _
  step-Grows h j at_write w = written-Grows h (e.can_write (path_of e server_id j)) w _ refl
  step-Grows h j at_check w =
      let valid =
        Rsa.verify e.ssl (Rsa.of_public_file e.ssl (w.files (path_of e server_id j)))
          (hash_of e server_id j.info.content) j.info.sign Rsa.SignType.sha384_type true in
      let next = λ (v : Bool). if not v then at_refuse else at_reply in
      Grows-same h w (goes_on (valid, w) next).1 (ap (λ v. v.heap) (goes_on-world (valid, w) next))
  step-Grows h j at_refuse w = registered-Grows h (e.basic_logger w.loggers logger_name) w _
  step-Grows h j at_remove w = ([], sym (append-nil (w.heap h).posted))
  step-Grows h j at_reply w =
      let out = reply e server_id j.client j.info (path_of e server_id j) w in
      let (more, g) = reply-Grows h j w in
      (more, ap (λ v. (v.heap h).posted) (goes_on-world out (λ sent. finished (ok sent))) ∙ g)
  step-Grows h j (finished r) w = Grows-same h w w refl

  pub IsPosted-send :
      (client : ℕ) (m : Message NetMsgType) (heap : ℕ → Connection NetMsgType)
      → IsPosted m (send_to (some client) m heap client).posted
  unfolding send_to send
  IsPosted-send client m heap = record {
    earlier = (heap client).posted;
    later = [];
    there = ground arith;
  }
