-- ===== src/Platform/Server/Tasks/Keys.antt =====
-- The key files, over any tasks of src/Server.cc that are worked on one after another.
use security_transmission_pl.Base.{
  ℕ, ◌^◌, ◌<◌, ◌≡◌, ◌≢◌, refl, sym, ap, ◌∙◌, ◌⊎◌, inl, inr, true, Option, none, some, List, [], ◌∷◌,
  length, arith,
}
use security_transmission_pl.Base.Result.{Result, ok, throws, undefined}
use security_transmission_pl.Net.Message.{Message}
use security_transmission_pl.Proto.Msg.{NetMsgType}
use security_transmission_pl.Platform.World.{Env, World, chain}
use security_transmission_pl.Platform.Server.{pubkey_file_name, work}
use security_transmission_pl.Platform.Server.Agreement.{signed, agree}
use security_transmission_pl.Platform.Server.Working.{request_in, work-agree, work_others}
use security_transmission_pl.Platform.Server.Tasks.{work_all}
use security_transmission_pl.Platform.Server.Tasks.Leaving.{agree-Leaves, ended-files}

module _ {Key L : Type 0} (e : Env Key L) (server_id : List ℕ) where
  -- A file is the key of one of the tasks' requests, under the name of its client, and the
  -- request's signature covers it.
  abbrev pub IsSigned : List (ℕ × Message NetMsgType) → List ℕ → Option (List ℕ) → Type 0
  IsSigned [] p file = ⊥
  IsSigned ((client, msg) ∷ tasks) p file =
      let info = request_in e server_id client msg in
      ((msg.header.id ≡ NetMsgType.seckey_agree)
        × (p ≡ pubkey_file_name info.client_id)
        × (file ≡ some info.content)
        × (signed e server_id client info ≡ ok true))
      ⊎ IsSigned tasks p file

  abbrev pub Fit : List (ℕ × Message NetMsgType) → Type 0
  Fit [] = Unit
  Fit ((client, msg) ∷ tasks) = (length msg.body < 2 ^ 64) × Fit tasks

  abbrev Kept :
      List (ℕ × Message NetMsgType) → List ℕ → World L → Result (Unit {0}) × World L → Type 0
  Kept tasks p w out =
      (out.1.files p ≡ w.files p)
      ⊎ ((w.files p ≡ none) × ((out.0 ≢ ok tt) ⊎ IsSigned tasks p (out.1.files p)))

  work-Kept :
      (client : ℕ) (msg : Message NetMsgType) (p : List ℕ) (w : World L) (id : NetMsgType)
      → length msg.body < 2 ^ 64
      → msg.header.id ≡ id
      → Kept ((client, msg) ∷ []) p w (work e server_id client msg w)
  work-Kept client msg p w NetMsgType.seckey_agree small is =
      let info = request_in e server_id client msg in
      let out = agree e server_id client info w in
      let (same, stops) = ended-files e server_id client out in
      rw (work-agree e server_id client msg w small is)
        (elim (agree-Leaves e server_id client info w p _ refl) [
          | inl kept ↦ inl (ap (λ g. g p) same ∙ kept)
          | inr (free, inl stuck) ↦ inr (free, inl (stops stuck))
          | inr (free, inr (here, put, good)) ↦
              inr (free, inr (inl (is, here, ap (λ g. g p) same ∙ put, good)))
        ])
  work-Kept client msg p w NetMsgType.seckey_verify small is =
      rw (work_others e server_id client msg w small (λ q. ground (arith, is, q))) (inl refl)
  work-Kept client msg p w NetMsgType.seckey_logout small is =
      rw (work_others e server_id client msg w small (λ q. ground (arith, is, q))) (inl refl)
  work-Kept client msg p w NetMsgType.failed small is =
      rw (work_others e server_id client msg w small (λ q. ground (arith, is, q))) (inl refl)

  -- A task and what is done after it.
  after :
      (client : ℕ) (msg : Message NetMsgType) (tasks : List (ℕ × Message NetMsgType)) (p : List ℕ)
      (w : World L) (out : Result (Unit {0}) × World L)
      → Kept ((client, msg) ∷ []) p w out
      → ((w₁ : World L) → Kept tasks p w₁ (work_all e server_id tasks w₁))
      → Kept ((client, msg) ∷ tasks) p w (chain out (λ _. work_all e server_id tasks))
  after client msg tasks p w (ok t, w₁) (inl same) rest = elim (rest w₁) [
    | inl kept ↦ inl (kept ∙ same)
    | inr (free, inl stuck) ↦ inr (sym same ∙ free, inl stuck)
    | inr (free, inr signs) ↦ inr (sym same ∙ free, inr (inr signs))
  ]
  after client msg tasks p w (ok t, w₁) (inr (free, inl stuck)) rest = absurd (stuck refl)
  after client msg tasks p w (ok t, w₁) (inr (free, inr (inr signs))) rest = absurd signs
  after client msg tasks p w (ok t, w₁) (inr (free, inr (inl (is, here, put, good)))) rest =
      elim (rest w₁) [
        | inl kept ↦ inr (free, inr (inl (is, here, kept ∙ put, good)))
        | inr (gone, _) ↦ absurd (ground (arith, sym gone ∙ put))
      ]
  after client msg tasks p w (throws x, w₁) (inl same) rest = inl same
  after client msg tasks p w (throws x, w₁) (inr (free, _)) rest =
      inr (free, inl (λ q. ground (arith, q)))
  after client msg tasks p w (undefined, w₁) (inl same) rest = inl same
  after client msg tasks p w (undefined, w₁) (inr (free, _)) rest =
      inr (free, inl (λ q. ground (arith, q)))

  -- While tasks whose messages fit the address space are worked on one after another, until one
  -- throws: every file stays as it was at the start; or it was not there, and either not all tasks
  -- returned, or it is the key of one of the requests, under the name of its client, and the
  -- request's signature covers it.
  pub work_all-keys :
      (tasks : List (ℕ × Message NetMsgType)) (w : World L) (p : List ℕ)
      → Fit tasks
      → let out = work_all e server_id tasks w in
        (out.1.files p ≡ w.files p)
        ⊎ ((w.files p ≡ none) × ((out.0 ≢ ok tt) ⊎ IsSigned tasks p (out.1.files p)))
  unfolding work_all
  work_all-keys [] w p fit = inl refl
  work_all-keys ((client, msg) ∷ tasks) w p (small, fit) =
      after client msg tasks p w (work e server_id client msg w)
        (work-Kept client msg p w msg.header.id small refl) (λ w₁. work_all-keys tasks w₁ p fit)
