-- ===== src/AudioStream/Subscribers.antt =====
-- Who is subscribed.
use cwsd.Shared.{
  ℕ, ◌-◌, ◌<◌, ◌≤◌, ◌^◌, ◌≡◌, refl, sym, ap, ◌∙◌, subst, Option, none, some, List, [], ◌∷◌, ◌++◌,
  All, ltb, leb, ◌==◌, ==_iff, sub_u32, if◌then◌else◌, if_both, if_either, Bool-cases, Option-cases,
  inl, inr, arith,
}
use cwsd.AudioStream.{
  Address, Clients, Keepalive, client_key, subscribe, drain, expire, poll_clients,
}

-- When the client of a key was seen last, `none` if it is not subscribed.
abbrev pub last_seen : ℕ → Clients → Option ℕ
last_seen key [] = none
last_seen key ((k, c) ∷ cs) = if key == k then some c.last_seen_ms else last_seen key cs

abbrev or_else : Option ℕ → Option ℕ → Option ℕ
or_else none o = o
or_else (some t) o = some t

-- The time of the last datagram from a key, the oldest datagram first.
abbrev pub heard_at : ℕ → List Keepalive → Option ℕ
heard_at key [] = none
heard_at key (d ∷ ds) =
    or_else (heard_at key ds) (if key == client_key d.from then some d.now else none)

-- A time, unless it lies the timeout or more behind.
abbrev pub recent : ℕ → ℕ → Option ℕ → Option ℕ
recent timeout now none = none
recent timeout now (some t) = if ltb (now - t) timeout then some t else none

-- No key has two entries.
abbrev Unique : Clients → Type 0
Unique [] = Unit
Unique (e ∷ cs) = (last_seen e.0 cs ≡ none) × Unique cs

last_seen-subscribe :
    (key k : ℕ) (from : Address) (now : ℕ) (cs : Clients)
    → last_seen key (subscribe k from now cs) ≡ (if key == k then some now else last_seen key cs)
unfolding subscribe
last_seen-subscribe key k from now [] = refl
last_seen-subscribe key k from now ((j, c) ∷ cs) =
    ground (arith, last_seen-subscribe key k from now cs)

subscribe-Unique :
    (k : ℕ) (from : Address) (now : ℕ) (cs : Clients) → Unique cs → Unique (subscribe k from now cs)
unfolding subscribe
subscribe-Unique k from now [] u = (refl, tt)
subscribe-Unique k from now ((j, c) ∷ cs) u =
    if_either Unique (k == j) (λ same. u)
      (λ other. (
        ground (arith, u.0, last_seen-subscribe j k from now cs),
        subscribe-Unique k from now cs u.1,
      ))

last_seen-drain :
    (key : ℕ) (ds : List Keepalive) (cs : Clients)
    → last_seen key (drain ds cs) ≡ or_else (heard_at key ds) (last_seen key cs)
unfolding drain
last_seen-drain key [] cs = refl
last_seen-drain key (d ∷ ds) cs = ground (
  arith,
  last_seen-drain key ds (subscribe (client_key d.from) d.from d.now cs),
  last_seen-subscribe key (client_key d.from) d.from d.now cs,
)

drain-Unique : (ds : List Keepalive) (cs : Clients) → Unique cs → Unique (drain ds cs)
unfolding drain
drain-Unique [] cs u = u
drain-Unique (d ∷ ds) cs u =
    drain-Unique ds (subscribe (client_key d.from) d.from d.now cs)
      (subscribe-Unique (client_key d.from) d.from d.now cs u)

-- `expire` on one time.
abbrev kept : ℕ → ℕ → Option ℕ → Option ℕ
kept timeout now none = none
kept timeout now (some t) = if leb timeout (sub_u32 now t) then none else some t

last_seen-expire :
    (key timeout now : ℕ) (cs : Clients)
    → Unique cs
    → last_seen key (expire timeout now cs) ≡ kept timeout now (last_seen key cs)
unfolding expire
last_seen-expire key timeout now [] u = refl
last_seen-expire key timeout now ((k, c) ∷ cs) u = elim (Bool-cases (key == k)) [
  | inl same ↦
      let absent : last_seen key cs ≡ none =
        ap (λ j. last_seen j cs) ((==_iff key k).0 same) ∙ u.0 in
      ground (arith, absent, last_seen-expire key timeout now cs u.1)
  | inr other ↦ ground (arith, last_seen-expire key timeout now cs u.1)
]

expire-Unique : (timeout now : ℕ) (cs : Clients) → Unique cs → Unique (expire timeout now cs)
unfolding expire
expire-Unique timeout now [] u = tt
expire-Unique timeout now ((k, c) ∷ cs) u =
    if_both Unique (leb timeout (sub_u32 now c.last_seen_ms)) (expire-Unique timeout now cs u.1)
      (ground (arith, u.0, last_seen-expire k timeout now cs u.1), expire-Unique timeout now cs u.1)

-- Sweeps, each with the datagrams that wait and the time behind them.
abbrev pub Sweep : Type 0
Sweep = List Keepalive × ℕ

unfoldable pub sweeps : ℕ → List Sweep → Clients → Clients
unfolding poll_clients
sweeps timeout [] cs = cs
sweeps timeout ((ds, now) ∷ rest) cs = sweeps timeout rest (poll_clients timeout ds now cs)

-- All datagrams of the sweeps, and the time of the last one.
abbrev pub datagrams : List Sweep → List Keepalive
datagrams [] = []
datagrams ((ds, now) ∷ rest) = ds ++ datagrams rest

abbrev pub end_of : ℕ → List Sweep → ℕ
end_of n [] = n
end_of n ((ds, now) ∷ rest) = end_of now rest

-- Time does not run back from one sweep to the next, nor from a datagram to the end of its sweep,
-- and the clock does not wrap round.
abbrev pub Timely : ℕ → List Sweep → Type 0
Timely n [] = Unit
Timely n ((ds, now) ∷ rest) =
    (n ≤ now) × (now < 2 ^ 32) × All (λ d. d.now ≤ now) ds × Timely now rest

abbrev Past : ℕ → Option ℕ → Type 0
Past n none = Unit
Past n (some t) = t ≤ n

heard_at-Past :
    (key n : ℕ) (ds : List Keepalive) → All (λ d. d.now ≤ n) ds → Past n (heard_at key ds)
heard_at-Past key n [] a = tt
heard_at-Past key n (d ∷ ds) a = elim (Option-cases (heard_at key ds)) [
  | inl silent ↦ rw silent (if_both (Past n) (key == client_key d.from) a.0 tt)
  | inr (t, heard) ↦ rw heard (subst (Past n) heard (heard_at-Past key n ds a.1))
]

or_else_none : (o : Option ℕ) → or_else o none ≡ o
or_else_none none = refl
or_else_none (some t) = refl

or_else_assoc : (o p q : Option ℕ) → or_else (or_else o p) q ≡ or_else o (or_else p q)
or_else_assoc none p q = refl
or_else_assoc (some t) p q = refl

heard_at-append :
    (key : ℕ) (ds es : List Keepalive)
    → heard_at key (ds ++ es) ≡ or_else (heard_at key es) (heard_at key ds)
heard_at-append key [] es = sym (or_else_none (heard_at key es))
heard_at-append key (d ∷ ds) es =
    let own = if key == client_key d.from then some d.now else none in
    ap (λ o. or_else o own) (heard_at-append key ds es)
    ∙ or_else_assoc (heard_at key es) (heard_at key ds) own

-- What a sweep makes of the time of a key, by the times that were heard before and in it.
kept-recent :
    (timeout n now : ℕ) (before heard : Option ℕ)
    → n ≤ now
    → now < 2 ^ 32
    → Past n before
    → Past now heard
    → kept timeout now (or_else heard (recent timeout n before))
      ≡ recent timeout now (or_else heard before)
kept-recent timeout n now none none le fits p q = refl
kept-recent timeout n now none (some t) le fits p q = ground arith
kept-recent timeout n now (some s) none le fits p q = ground arith
kept-recent timeout n now (some s) (some t) le fits p q = ground arith

or_else-Past :
    (n now : ℕ) (heard before : Option ℕ)
    → n ≤ now
    → Past now heard
    → Past n before
    → Past now (or_else heard before)
or_else-Past n now none none le p q = tt
or_else-Past n now none (some t) le p q = omega arith
or_else-Past n now (some s) before le p q = p

poll_clients-recent :
    (key timeout n now : ℕ) (ds : List Keepalive) (cs : Clients) (before : Option ℕ)
    → Unique cs
    → n ≤ now
    → now < 2 ^ 32
    → All (λ d. d.now ≤ now) ds
    → Past n before
    → last_seen key cs ≡ recent timeout n before
    → last_seen key (poll_clients timeout ds now cs)
      ≡ recent timeout now (or_else (heard_at key ds) before)
unfolding poll_clients
poll_clients-recent key timeout n now ds cs before u le fits a p e =
    last_seen-expire key timeout now (drain ds cs) (drain-Unique ds cs u)
    ∙ ap (kept timeout now) (last_seen-drain key ds cs ∙ ap (or_else (heard_at key ds)) e)
    ∙ kept-recent timeout n now before (heard_at key ds) le fits p (heard_at-Past key now ds a)

poll_clients-Unique :
    (timeout now : ℕ) (ds : List Keepalive) (cs : Clients)
    → Unique cs
    → Unique (poll_clients timeout ds now cs)
unfolding poll_clients
poll_clients-Unique timeout now ds cs u =
    expire-Unique timeout now (drain ds cs) (drain-Unique ds cs u)

sweeps-recent :
    (key timeout n : ℕ) (ss : List Sweep) (cs : Clients) (before : Option ℕ)
    → Unique cs
    → Timely n ss
    → Past n before
    → last_seen key cs ≡ recent timeout n before
    → last_seen key (sweeps timeout ss cs)
      ≡ recent timeout (end_of n ss) (or_else (heard_at key (datagrams ss)) before)
unfolding sweeps
sweeps-recent key timeout n [] cs before u ts p e = e
sweeps-recent key timeout n ((ds, now) ∷ rest) cs before u (le, fits, a, ts) p e =
    let heard = heard_at key ds in
    sweeps-recent key timeout now rest (poll_clients timeout ds now cs) (or_else heard before)
      (poll_clients-Unique timeout now ds cs u) ts
      (or_else-Past n now heard before le (heard_at-Past key now ds a) p)
      (poll_clients-recent key timeout n now ds cs before u le fits a p e)
    ∙ ap (recent timeout (end_of now rest)) (
        sym (or_else_assoc (heard_at key (datagrams rest)) heard before)
        ∙ ap (λ o. or_else o before) (sym (heard_at-append key ds (datagrams rest))))

-- After sweeps that start without clients, exactly the keys are subscribed whose last datagram is
-- less than the timeout old when the last sweep ends, each with the time of that datagram. Time
-- does not run back, and the clock of 32 bits does not wrap round.
pub last_seen-sweeps :
    (key timeout : ℕ) (ss : List Sweep)
    → Timely 0 ss
    → last_seen key (sweeps timeout ss [])
      ≡ recent timeout (end_of 0 ss) (heard_at key (datagrams ss))
last_seen-sweeps key timeout ss ts =
    sweeps-recent key timeout 0 ss [] none tt ts tt refl
    ∙ ap (recent timeout (end_of 0 ss)) (or_else_none (heard_at key (datagrams ss)))
