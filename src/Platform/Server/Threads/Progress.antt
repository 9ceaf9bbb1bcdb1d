-- ===== src/Platform/Server/Threads/Progress.antt =====
-- A request that can be accepted, among those of other clients, on the threads of `thread_pool_`.
use mathlib.Core.Path.{subst}
use security_transmission_pl.Base.{
  ℕ, zero, suc, ◌+◌, ◌≤◌, ◌≡◌, ◌≢◌, refl, ap, ◌∙◌, Bool, true, false, Option, none, some, List, [],
  ◌∷◌, if◌then◌else◌, ◌==◌, ==_iff, arith,
}
use security_transmission_pl.Base.Result.{ok}
use security_transmission_pl.Net.Message.{Message}
use security_transmission_pl.Proto.Msg.{NetMsgType}
use security_transmission_pl.Crypto.Rsa
use security_transmission_pl.Platform.World.{Env, World, exists, is_there, write_file, read_file}
use security_transmission_pl.Platform.Server.{check_sign, hash_of, respond_msg}
use security_transmission_pl.Platform.Server.Agreement.{signed, assign_file-same}
use security_transmission_pl.Platform.Server.Answer.{encrypted}
use security_transmission_pl.Platform.Server.Accepted.{reply_lem}
use security_transmission_pl.Platform.Server.Threads.{
  Pc, at_exists, at_write, at_check, at_reply, finished, Job, path_of, step, System, turn, run,
  started,
}
use security_transmission_pl.Platform.Server.Threads.Isolation.{step-files}
use security_transmission_pl.Platform.Server.Threads.Posting.{
  IsPosted, Grows, IsPosted-Grows, step-Grows, IsPosted-send,
}

module _ {Key L : Type 0} (e : Env Key L) (server_id : List ℕ) where
  -- A request that is accepted, and the message that answers it.
  pub record IsGood (j : Job) (msg : Message NetMsgType) (w : World L) : Type 0 where
    pub cipher : List ℕ
    pub free : w.files (path_of e server_id j) ≡ none
    pub can : e.can_write (path_of e server_id j) ≡ true
    pub good : signed e server_id j.client j.info ≡ ok true
    pub key_works : encrypted e server_id j.client j.info ≡ ok cipher
    pub responds : respond_msg e server_id j.info cipher ≡ ok msg

  module _ (j : Job) (msg : Message NetMsgType) (w₀ : World L) (g : IsGood j msg w₀) where
    abbrev Kept : World L → Type 0
    Kept w = w.files (path_of e server_id j) ≡ some j.info.content

    -- Where a thread with the request is after so many of its accesses.
    abbrev Stage : ℕ → Pc → World L → Type 0
    Stage zero pc w = (pc ≡ at_exists) × (w.files (path_of e server_id j) ≡ none)
    Stage (suc zero) pc w = pc ≡ at_write
    Stage (suc (suc zero)) pc w = (pc ≡ at_check) × Kept w
    Stage (suc (suc (suc zero))) pc w = (pc ≡ at_reply) × Kept w
    Stage (suc (suc (suc (suc n)))) pc w =
        (pc ≡ finished (ok true)) × Kept w × IsPosted msg (w.heap j.client).posted

    step-Stage :
        (n : ℕ) (pc : Pc) (w : World L)
        → Stage n pc w
        → let (pc', w') = step e server_id j pc w in Stage (suc n) pc' w'
    unfolding step exists is_there write_file check_sign read_file
    step-Stage zero pc w (p, f) = rw p (rw f refl)
    step-Stage (suc zero) pc w p =
        rw p
          (refl, rw g.can (assign_file-same w.files (path_of e server_id j) (some j.info.content)))
    step-Stage (suc (suc zero)) pc w (p, k) =
        let valid = λ (file : Option (List ℕ)).
          Rsa.verify e.ssl (Rsa.of_public_file e.ssl file) (hash_of e server_id j.info.content)
            j.info.sign Rsa.SignType.sha384_type true in
        rw p (rw (ap valid k ∙ g.good) (refl, k))
    step-Stage (suc (suc (suc zero))) pc w (p, k) =
        let path = path_of e server_id j in
        let sent =
          reply_lem e server_id j.client j.info path w g.cipher msg k g.key_works g.responds in
        rw p (rw sent (refl, k, IsPosted-send e server_id j.client msg w.heap))
    step-Stage (suc (suc (suc (suc n)))) pc w (p, k, there) = rw p (refl, k, there)

    -- What another thread does leaves the stage as it is.
    Stage-other :
        (n : ℕ) (pc : Pc) (w v : World L)
        → v.files (path_of e server_id j) ≡ w.files (path_of e server_id j)
        → Grows j.client w v
        → Stage n pc w
        → Stage n pc v
    Stage-other zero pc w v same more (p, f) = (p, same ∙ f)
    Stage-other (suc zero) pc w v same more p = p
    Stage-other (suc (suc zero)) pc w v same more (p, k) = (p, same ∙ k)
    Stage-other (suc (suc (suc zero))) pc w v same more (p, k) = (p, same ∙ k)
    Stage-other (suc (suc (suc (suc n)))) pc w v same more (p, k, there) =
        (p, same ∙ k, IsPosted-Grows j.client w v msg more there)

    Stage-done :
        (n : ℕ) (pc : Pc) (w : World L)
        → 4 ≤ n
        → Stage n pc w
        → (pc ≡ finished (ok true)) × Kept w × IsPosted msg (w.heap j.client).posted
    Stage-done zero pc w h t = absurd (omega arith)
    Stage-done (suc zero) pc w h t = absurd (omega arith)
    Stage-done (suc (suc zero)) pc w h t = absurd (omega arith)
    Stage-done (suc (suc (suc zero))) pc w h t = absurd (omega arith)
    Stage-done (suc (suc (suc (suc n)))) pc w h t = t

  -- How many accesses of a schedule are those of thread `i`.
  abbrev pub turns : ℕ → List ℕ → ℕ
  turns i [] = 0
  turns i (k ∷ ks) = let rest = turns i ks in if i == k then suc rest else rest

  module _ (jobs : ℕ → Job) (i : ℕ) (msg : Message NetMsgType) (w₀ : World L)
      (g : IsGood (jobs i) msg w₀)
      (apart : (k : ℕ) → k ≢ i → path_of e server_id (jobs i) ≢ path_of e server_id (jobs k)) where
    own-or-other :
        (k n : ℕ) (same : Bool) (s : System e server_id)
        → (i == k) ≡ same
        → Stage (jobs i) msg w₀ g n (s.pc i) s.world
        → let (pc', w') = step e server_id (jobs k) (s.pc k) s.world in
          Stage (jobs i) msg w₀ g (if same then suc n else n) (if same then pc' else s.pc i) w'
    own-or-other k n true s test h =
        let it : i ≡ k = (==_iff i k).0 test in
        rw⁻¹ it (step-Stage (jobs i) msg w₀ g n (s.pc i) s.world h)
    own-or-other k n false s test h =
        Stage-other (jobs i) msg w₀ g n (s.pc i) s.world _
          (step-files e server_id (jobs k) (s.pc k) s.world (path_of e server_id (jobs i))
            (apart k (λ it. ground (arith, it, test))))
          (step-Grows e server_id (jobs i).client (jobs k) (s.pc k) s.world) h

    run-Stage :
        (schedule : List ℕ) (n : ℕ) (s : System e server_id)
        → Stage (jobs i) msg w₀ g n (s.pc i) s.world
        → let t = run e server_id jobs schedule s in
          Stage (jobs i) msg w₀ g (n + turns i schedule) (t.pc i) t.world
    unfolding run turn
    run-Stage [] n s h =
        let sum : n ≡ n + turns i [] = omega arith in
        subst (λ m. Stage (jobs i) msg w₀ g m (s.pc i) s.world) sum h
    run-Stage (k ∷ ks) n s h =
        let t = run e server_id jobs (k ∷ ks) s in
        let sum : (if i == k then suc n else n) + turns i ks ≡ n + turns i (k ∷ ks) =
          ground arith in
        subst (λ m. Stage (jobs i) msg w₀ g m (t.pc i) t.world) sum
          (run-Stage ks (if i == k then suc n else n) (turn e server_id jobs k s)
            (own-or-other k n (i == k) s refl h))

  -- Any number of threads, in any order of their accesses: if no other thread works for the same
  -- client, a thread with the request of a new client, whose file can be written, whose signature is
  -- good and whose answer can be made, has succeeded once it has had four turns. Then its data is in
  -- the client's file, and its answer is among what was posted on its connection.
  pub run-succeeds :
      (jobs : ℕ → Job) (i : ℕ) (schedule : List ℕ) (w : World L) (msg : Message NetMsgType)
      → IsGood (jobs i) msg w
      → ((k : ℕ) → k ≢ i → path_of e server_id (jobs i) ≢ path_of e server_id (jobs k))
      → 4 ≤ turns i schedule
      → let t = run e server_id jobs schedule (started e server_id w) in
        (t.pc i ≡ finished (ok true))
        × (t.world.files (path_of e server_id (jobs i)) ≡ some (jobs i).info.content)
        × IsPosted msg (t.world.heap (jobs i).client).posted
  run-succeeds jobs i schedule w msg g apart enough =
      let t = run e server_id jobs schedule (started e server_id w) in
      Stage-done (jobs i) msg w g (0 + turns i schedule) (t.pc i) t.world (omega (arith, enough))
        (run-Stage jobs i msg w g apart schedule 0 (started e server_id w) (refl, g.free))
