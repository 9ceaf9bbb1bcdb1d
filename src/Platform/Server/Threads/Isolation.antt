-- ===== src/Platform/Server/Threads/Isolation.antt =====
-- Requests of different clients on the threads of `thread_pool_`.
use mathlib.Core.Path.{subst}
use security_transmission_pl.Base.{
  ℕ, ◌≡◌, ◌≢◌, refl, ap, sym, ◌∙◌, Bool, true, false, Option, none, some, List, [], ◌∷◌, not,
  if◌then◌else◌, ◌==◌, ==_iff, Bool-cases, inl, inr, arith,
}
use security_transmission_pl.Base.Result.{Result, ok, throws, undefined}
use security_transmission_pl.Base.Bytes.{same_bytes, same_bytes_iff}
use security_transmission_pl.Crypto.Rsa
use security_transmission_pl.Platform.World.{
  Env, World, exists, is_there, write_file, read_file, remove, registered, make_logger, assign_file,
}
use security_transmission_pl.Platform.Server.{check_sign, hash_of, logger_name, reply}
use security_transmission_pl.Platform.Server.Agreement.{signed, assign_file-same}
use security_transmission_pl.Platform.Server.Accepted.{reply-files}
use security_transmission_pl.Platform.Server.Threads.{
  Pc, at_exists, at_taken, at_write, at_check, at_refuse, at_remove, at_reply, finished, goes_on,
  Job, path_of, step, System, turn, run, started,
}

assign_file-other :
    (files : List ℕ → Option (List ℕ)) (path p : List ℕ) (c : Option (List ℕ))
    → p ≢ path
    → assign_file files path c p ≡ files p
assign_file-other files path p c other = elim (Bool-cases (same_bytes p path)) [
  | inl same ↦ absurd (other ((same_bytes_iff p path).0 same))
  | inr differ ↦ rw differ
]

pub goes_on-world :
    {L A : Type 0} (out : Result A × World L) (f : A → Pc) → (goes_on out f).1 ≡ out.1
goes_on-world (ok a, w) f = refl
goes_on-world (throws x, w) f = refl
goes_on-world (undefined, w) f = refl

registered-files : {L : Type 0} (o : Option L) (w : World L) → (registered o w).1.files ≡ w.files
registered-files none w = refl
registered-files (some registry) w = refl

module _ {Key L : Type 0} (e : Env Key L) (server_id : List ℕ) where
  make_logger-files : (w : World L) → (make_logger e logger_name w).1.files ≡ w.files
  unfolding make_logger
  make_logger-files w = registered-files (e.basic_logger w.loggers logger_name) w

  written_other :
      (can : Bool) (path p content : List ℕ) (w : World L)
      → p ≢ path
      → (if can then record w { files = assign_file w.files path (some content) } else w).files p
        ≡ w.files p
  written_other true path p content w other = assign_file-other w.files path p (some content) other
  written_other false path p content w other = refl

  checked : Job → Option (List ℕ) → Result Bool
  checked j file =
      Rsa.verify e.ssl (Rsa.of_public_file e.ssl file) (hash_of e server_id j.info.content)
        j.info.sign Rsa.SignType.sha384_type true

  -- A thread leaves every file but its own as it is.
  pub step-files :
      (j : Job) (pc : Pc) (w : World L) (p : List ℕ)
      → p ≢ path_of e server_id j
      → (step e server_id j pc w).1.files p ≡ w.files p
  unfolding step exists write_file check_sign read_file remove checked
  step-files j at_exists w p other = refl
  step-files j at_taken w p other =
      ap (λ v. v.files p) (goes_on-world (make_logger e logger_name w) (λ _. finished (ok false)))
      ∙ ap (λ files. files p) (make_logger-files w)
  step-files j at_write w p other =
      written_other (e.can_write (path_of e server_id j)) (path_of e server_id j) p j.info.content w
        other
  step-files j at_check w p other =
      ap (λ v. v.files p)
        (goes_on-world (checked j (w.files (path_of e server_id j)), w)
          (λ valid. if not valid then at_refuse else at_reply))
  step-files j at_refuse w p other =
      ap (λ v. v.files p) (goes_on-world (make_logger e logger_name w) (λ _. at_remove))
      ∙ ap (λ files. files p) (make_logger-files w)
  step-files j at_remove w p other = assign_file-other w.files (path_of e server_id j) p none other
  step-files j at_reply w p other =
      ap (λ v. v.files p)
        (goes_on-world (reply e server_id j.client j.info (path_of e server_id j) w)
          (λ sent. finished (ok sent)))
      ∙ ap (λ files. files p) (reply-files e server_id j.client j.info (path_of e server_id j) w)
  step-files j (finished r) w p other = refl

  module _ (j : Job) (can : e.can_write (path_of e server_id j) ≡ true)
      (before : Option (List ℕ)) where
    -- The key of a request that was accepted.
    abbrev Kept : World L → Type 0
    Kept w =
        (before ≡ none)
        × (signed e server_id j.client j.info ≡ ok true)
        × (w.files (path_of e server_id j) ≡ some j.info.content)

    -- What holds of the thread's own file, which held `before` when the thread was started.
    abbrev Local : Pc → World L → Type 0
    Local at_exists w = w.files (path_of e server_id j) ≡ before
    Local at_write w = before ≡ none
    Local at_check w = (before ≡ none) × (w.files (path_of e server_id j) ≡ some j.info.content)
    Local at_reply w = Kept w
    Local (finished (ok true)) w = Kept w
    Local pc w = Unit {0}

    Local-exists :
        (file : Option (List ℕ)) (w : World L)
        → file ≡ before
        → Local (if is_there file then at_taken else at_write) w
    unfolding is_there
    Local-exists none w h = sym h
    Local-exists (some key) w h = tt

    Local-checked :
        (valid : Result Bool) (w : World L)
        → valid ≡ signed e server_id j.client j.info
        → Local at_check w
        → Local (goes_on (valid, w) (λ v. if not v then at_refuse else at_reply)).0 w
    Local-checked (ok true) w h (b, f) = (b, sym h, f)
    Local-checked (ok false) w h (b, f) = tt
    Local-checked (throws x) w h (b, f) = tt
    Local-checked undefined w h (b, f) = tt

    Local-sent :
        (out : Result Bool × World L)
        → Kept out.1
        → Local (goes_on out (λ sent. finished (ok sent))).0 out.1
    Local-sent (ok true, w) h = h
    Local-sent (ok false, w) h = tt
    Local-sent (throws x, w) h = tt
    Local-sent (undefined, w) h = tt

    Local-pending :
        {A : Type 0} (out : Result A × World L) (w : World L)
        → Local (goes_on out (λ _. finished (ok false))).0 w
    Local-pending (ok a, v) w = tt
    Local-pending (throws x, v) w = tt
    Local-pending (undefined, v) w = tt

    Local-removing :
        {A : Type 0} (out : Result A × World L) (w : World L)
        → Local (goes_on out (λ _. at_remove)).0 w
    Local-removing (ok a, v) w = tt
    Local-removing (throws x, v) w = tt
    Local-removing (undefined, v) w = tt

    Local-ext :
        (pc : Pc) (w w' : World L)
        → w'.files (path_of e server_id j) ≡ w.files (path_of e server_id j)
        → Local pc w
        → Local pc w'
    Local-ext at_exists w w' e' h = e' ∙ h
    Local-ext at_taken w w' e' h = tt
    Local-ext at_write w w' e' h = h
    Local-ext at_check w w' e' (b, f) = (b, e' ∙ f)
    Local-ext at_refuse w w' e' h = tt
    Local-ext at_remove w w' e' h = tt
    Local-ext at_reply w w' e' (b, g, f) = (b, g, e' ∙ f)
    Local-ext (finished (ok true)) w w' e' (b, g, f) = (b, g, e' ∙ f)
    Local-ext (finished (ok false)) w w' e' h = tt
    Local-ext (finished (throws x)) w w' e' h = tt
    Local-ext (finished undefined) w w' e' h = tt

    -- The thread's own access.
    step-Local :
        (pc : Pc) (w : World L)
        → Local pc w
        → let (pc', w') = step e server_id j pc w in Local pc' w'
    unfolding step exists write_file check_sign read_file remove checked
    step-Local at_exists w h = Local-exists (w.files (path_of e server_id j)) w h
    step-Local at_taken w h = Local-pending (make_logger e logger_name w) _
    step-Local at_write w h =
        (h, rw can (assign_file-same w.files (path_of e server_id j) (some j.info.content)))
    step-Local at_check w (b, f) =
        Local-ext _ w _
          (ap (λ v. v.files (path_of e server_id j))
            (goes_on-world (checked j (w.files (path_of e server_id j)), w)
              (λ v. if not v then at_refuse else at_reply)))
          (Local-checked (checked j (w.files (path_of e server_id j))) w (ap (checked j) f) (b, f))
    step-Local at_refuse w h = Local-removing (make_logger e logger_name w) _
    step-Local at_remove w h = tt
    step-Local at_reply w (b, g, f) =
        let out = reply e server_id j.client j.info (path_of e server_id j) w in
        Local-ext _ out.1 _
          (ap (λ v. v.files (path_of e server_id j))
            (goes_on-world out (λ sent. finished (ok sent))))
          (Local-sent out (
            b,
            g,
            ap (λ files. files (path_of e server_id j))
                  (reply-files e server_id j.client j.info (path_of e server_id j) w)
                ∙ f,
          ))
    step-Local (finished r) w h = h

  module _ (jobs : ℕ → Job) (i : ℕ) (can : e.can_write (path_of e server_id (jobs i)) ≡ true)
      (alone_there : (k : ℕ) → k ≢ i → path_of e server_id (jobs i) ≢ path_of e server_id (jobs k))
      (before : Option (List ℕ)) where
    own-or-other :
        (k : ℕ) (same : Bool) (s : System e server_id)
        → (i == k) ≡ same
        → Local (jobs i) can before (s.pc i) s.world
        → let (pc', w') = step e server_id (jobs k) (s.pc k) s.world in
          Local (jobs i) can before (if same then pc' else s.pc i) w'
    own-or-other k true s test h =
        let it : i ≡ k = (==_iff i k).0 test in
        rw⁻¹ it (step-Local (jobs i) can before (s.pc i) s.world h)
    own-or-other k false s test h =
        Local-ext (jobs i) can before (s.pc i) s.world _
          (step-files (jobs k) (s.pc k) s.world (path_of e server_id (jobs i))
            (alone_there k (λ it. ground (arith, it, test))))
          h

    turn-Local :
        (k : ℕ) (s : System e server_id)
        → Local (jobs i) can before (s.pc i) s.world
        → let t = turn e server_id jobs k s in Local (jobs i) can before (t.pc i) t.world
    unfolding turn
    turn-Local k s h = own-or-other k (i == k) s refl h

    run-Local :
        (schedule : List ℕ) (s : System e server_id)
        → Local (jobs i) can before (s.pc i) s.world
        → let t = run e server_id jobs schedule s in Local (jobs i) can before (t.pc i) t.world
    unfolding run
    run-Local [] s h = h
    run-Local (k ∷ ks) s h = run-Local ks (turn e server_id jobs k s) (turn-Local k s h)

  -- Any number of threads, in any order of their accesses: if no other thread works for the same
  -- client, and the file of this client can be written, a thread that has succeeded found no key of
  -- its client, its request's signature covers its data, and the data is in the client's file.
  pub isolated :
      (jobs : ℕ → Job) (i : ℕ) (schedule : List ℕ) (w : World L)
      → e.can_write (path_of e server_id (jobs i)) ≡ true
      → ((k : ℕ) → k ≢ i → path_of e server_id (jobs i) ≢ path_of e server_id (jobs k))
      → (run e server_id jobs schedule (started e server_id w)).pc i ≡ finished (ok true)
      → (w.files (path_of e server_id (jobs i)) ≡ none)
        × (signed e server_id (jobs i).client (jobs i).info ≡ ok true)
        × ((run e server_id jobs schedule (started e server_id w)).world.files
              (path_of e server_id (jobs i))
            ≡ some (jobs i).info.content)
  isolated jobs i schedule w can apart done =
      let before = w.files (path_of e server_id (jobs i)) in
      let t = run e server_id jobs schedule (started e server_id w) in
      subst (λ pc. Local (jobs i) can before pc t.world) done
        (run-Local jobs i can apart before schedule (started e server_id w) refl)
