-- ===== src/Net/ServerInterface/Accepting.antt =====
-- Listening: `WaitForClientConnection` and its handler over a sequence of clients.
use security_transmission_pl.Base.{
  ℕ, zero, suc, ◌+◌, ◌-◌, ◌<◌, ◌≡◌, refl, Bool, true, false, Option, none, some, List, [], ◌∷◌,
  ◌++◌, u32, length, length-append, get_elem?, arith, Bool-cases, inl, inr, ◌⊎◌, sym, ◌∙◌, ◌>>=◌,
}
use mathlib.Core.Option.{some-injective}
use security_transmission_pl.Net.Message.{Message}
use security_transmission_pl.Net.Connection.{Connection, server, new, connect_to_client}
use security_transmission_pl.Net.ServerInterface.{
  ServerInterface, Arrival, fails, gone, comes, new_server, start, on_accept, assign,
}

module _ {T : Type 0} (on_client_connect : Connection T → Bool) (blank : Message T) where
  -- asio takes one waiting call for each event, and runs the handler.
  unfoldable pub accept_all : List Arrival → ServerInterface T → Option (ServerInterface T)
  accept_all [] s = some s
  accept_all (event ∷ events) s =
      on_accept on_client_connect event blank (record s { accepting = s.accepting - 1 })
      >>= accept_all events

  -- The clients of the container, the first of them at position `n`, are objects that exist, and
  -- are numbered by their positions.
  abbrev pub IsNumbered : (ℕ → Connection T) → ℕ → ℕ → List (Option ℕ) → Type 0
  IsNumbered heap fresh n [] = Unit {0}
  IsNumbered heap fresh n (none ∷ cs) = ⊥
  IsNumbered heap fresh n (some h ∷ cs) =
      (h < fresh) × ((heap h).id ≡ u32 (10000 + n)) × IsNumbered heap fresh (suc n) cs

  record Inv (s : ServerInterface T) : Type 0 where
    listens : s.accepting ≡ 1
    counts : s.id_counter ≡ u32 (10000 + length s.connections)
    numbered : IsNumbered s.heap s.fresh 0 s.connections

  -- A new object leaves the others alone.
  IsNumbered-assign :
      (heap : ℕ → Connection T) (fresh n : ℕ) (conn : Connection T) (cs : List (Option ℕ))
      → IsNumbered heap fresh n cs
      → IsNumbered (assign heap fresh conn) (fresh + 1) n cs
  IsNumbered-assign heap fresh n conn [] v = tt
  IsNumbered-assign heap fresh n conn (none ∷ cs) v = v
  IsNumbered-assign heap fresh n conn (some h ∷ cs) (below, id, rest) =
      (omega arith, ground arith, IsNumbered-assign heap fresh (suc n) conn cs rest)

  IsNumbered-append :
      (heap : ℕ → Connection T) (fresh n : ℕ) (conn : Connection T) (cs : List (Option ℕ))
      → conn.id ≡ u32 (10000 + (n + length cs))
      → IsNumbered heap fresh n cs
      → IsNumbered (assign heap fresh conn) (fresh + 1) n (cs ++ some fresh ∷ [])
  IsNumbered-append heap fresh n conn [] e v = (omega arith, ground arith, tt)
  IsNumbered-append heap fresh n conn (none ∷ cs) e v = v
  IsNumbered-append heap fresh n conn (some h ∷ cs) e (below, id, rest) =
      (omega arith, ground arith, IsNumbered-append heap fresh (suc n) conn cs (omega arith) rest)

  connect-id :
      (uid self now : ℕ) → (connect_to_client uid (new self server now true blank)).id ≡ uid
  unfolding connect_to_client new
  connect-id uid self now = refl

  on_accept-Inv :
      (now : ℕ) (s : ServerInterface T)
      → Inv s
      → (t : ServerInterface T) × (on_accept on_client_connect
            (comes now)
            blank
            (record s { accepting = s.accepting - 1 })
          ≡ some t)
        × Inv t
  unfolding on_accept
  on_accept-Inv now s v =
      elim (Bool-cases (on_client_connect (new s.fresh server now true blank))) [
        | inl approved ↦ rw approved (
          _,
          refl,
          record {
            listens = omega (arith, v.listens);
            counts = omega (arith, v.counts, length-append s.connections (some s.fresh ∷ []));
            numbered =
                IsNumbered-append s.heap s.fresh 0
                  (connect_to_client s.id_counter (new s.fresh server now true blank)) s.connections
                  (omega (arith, v.counts, connect-id s.id_counter s.fresh now)) v.numbered;
          },
        )
        | inr denied ↦ rw denied (
          _,
          refl,
          record {
            listens = omega (arith, v.listens);
            counts = v.counts;
            numbered =
                IsNumbered-assign s.heap s.fresh 0 (new s.fresh server now true blank) s.connections
                  v.numbered;
          },
        )
      ]

  fails-Inv :
      (s : ServerInterface T)
      → Inv s
      → (t : ServerInterface T) × (on_accept on_client_connect fails blank
            (record s { accepting = s.accepting - 1 })
          ≡ some t)
        × Inv t
  unfolding on_accept
  fails-Inv s v = (
    _,
    refl,
    record { listens = omega (arith, v.listens); counts = v.counts; numbered = v.numbered },
  )

  gone_ends : (s : ServerInterface T) → on_accept on_client_connect gone blank s ≡ none
  unfolding on_accept
  gone_ends s = refl

  -- Whether one of the sockets has lost its peer.
  pub has_gone : List Arrival → Bool
  has_gone [] = false
  has_gone (fails ∷ events) = has_gone events
  has_gone (gone ∷ events) = true
  has_gone (comes now ∷ events) = has_gone events

  Listened : List Arrival → Option (ServerInterface T) → Type 0
  Listened events r =
      ((s : ServerInterface T) × (r ≡ some s) × Inv s × (has_gone events ≡ false))
      ⊎ ((r ≡ none) × (has_gone events ≡ true))

  accept_all-Inv :
      (events : List Arrival) (s : ServerInterface T)
      → Inv s
      → Listened events (accept_all events s)
  unfolding accept_all has_gone Listened
  accept_all-Inv [] s v = inl (s, refl, v, refl)
  accept_all-Inv (fails ∷ events) s v =
      let (t, e, v') = fails-Inv s v in rw e (accept_all-Inv events t v')
  accept_all-Inv (gone ∷ events) s v = inr (rw gone_ends refl, refl)
  accept_all-Inv (comes now ∷ events) s v =
      let (t, e, v') = on_accept-Inv now s v in rw e (accept_all-Inv events t v')

  start-Inv : (heap : ℕ → Connection T) → Inv (start false (new_server heap)).0
  unfolding start new_server
  start-Inv heap = record { listens = refl; counts = refl; numbered = tt }

  position :
      (heap : ℕ → Connection T) (fresh k n h : ℕ) (cs : List (Option ℕ))
      → IsNumbered heap fresh k cs
      → get_elem? cs n ≡ some (some h)
      → (heap h).id ≡ u32 (10000 + (k + n))
  position heap fresh k n h [] v e = cc
  position heap fresh k n h (none ∷ cs) v e = absurd v
  position heap fresh k zero h (some j ∷ cs) (below, id, rest) e =
      let same : j ≡ h = some-injective _ _ (some-injective _ _ e) in ground arith
  position heap fresh k (suc n) h (some j ∷ cs) (below, id, rest) e =
      omega (arith, position heap fresh (suc k) n h cs rest e)

  -- The server some time after it was started.
  abbrev pub serving : (ℕ → Connection T) → List Arrival → Option (ServerInterface T)
  serving heap events = accept_all events (start false (new_server heap)).0

  -- After the server was started and any clients arrived, with and without errors and whether or
  -- not they were turned away: either every accepted socket knew its peer, exactly one accept is
  -- waiting, the container holds existing connections with the ids 10000, 10001 and so on in their
  -- order, modulo 2 ^ 32, and the next id follows them; or a socket did not, and the program has
  -- ended.
  pub accept_all-listens :
      (heap : ℕ → Connection T) (events : List Arrival)
      → ((s : ServerInterface T) × (serving heap events ≡ some s)
          × (has_gone events ≡ false)
          × (s.accepting ≡ 1)
          × IsNumbered s.heap s.fresh 0 s.connections
          × (s.id_counter ≡ u32 (10000 + length s.connections)))
        ⊎ ((serving heap events ≡ none) × (has_gone events ≡ true))
  unfolding Listened
  accept_all-listens heap events = elim (accept_all-Inv events _ (start-Inv heap)) [
    | inl (s, e, v, known) ↦ inl (s, e, known, v.listens, v.numbered, v.counts)
    | inr ended ↦ inr ended
  ]

  -- The n-th client of the container, counted from 0, has the id 10000 + n, modulo 2 ^ 32.
  pub accept_all-id :
      (heap : ℕ → Connection T) (events : List Arrival) (s : ServerInterface T) (n h : ℕ)
      → serving heap events ≡ some s
      → get_elem? s.connections n ≡ some (some h)
      → (s.heap h).id ≡ u32 (10000 + n)
  unfolding Listened
  accept_all-id heap events s n h served e = elim (accept_all-Inv events _ (start-Inv heap)) [
    | inl (t, r, v, known) ↦
        let same : t ≡ s = some-injective t s (sym r ∙ served) in
        let w : Inv s = rw same at v in
        omega (arith, position s.heap s.fresh 0 n h s.connections w.numbered e)
    | inr (ended, _) ↦ absurd (ground (arith, ended, served))
  ]
