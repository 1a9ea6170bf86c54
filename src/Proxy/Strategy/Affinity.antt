-- ===== src/Proxy/Strategy/Affinity.antt =====
-- What rendezvous hashing chooses, and what the strategies promise.
use cruvero_mcp_gateway.Prelude.{
  ap, sym, ◌∙◌, All, ltb→lt, ℕ, suc, ◌≤◌, ◌<◌, ◌≡◌, refl, ◌⊎◌, inl, inr, false, List, [], ◌∷◌,
  Option, none, some, ltb, arith, keep, ◌==◌, Bool-cases, is_empty, ok,
}
use cruvero_mcp_gateway.Prelude.Texts.{Text, text_eq}
use cruvero_mcp_gateway.Types.{ServerRecord}
use cruvero_mcp_gateway.Registration.Index.{remove_server}
use cruvero_mcp_gateway.Proxy.Strategy.{
  Listed, beats, best_of, RoutingStrategy, session_affinity, RoutingRequest, hrw_score,
}

module _ (score : Text → ℕ) where
  best_of_grows :
      (a w : ServerRecord) (cs : List ServerRecord)
      → best_of score (some a) cs ≡ some w
      → (w ≡ a) ⊎ (score a.id < score w.id)
  unfolding best_of beats
  best_of_grows a w [] e = ground (arith)
  best_of_grows a w (c ∷ cs) e = ground (arith, best_of_grows a w cs, best_of_grows c w cs)

  abbrev Below : Option ServerRecord → ℕ → Type 0
  Below none n = Unit
  Below (some b) n = score b.id ≤ n

  best_of-Below :
      (a w : ServerRecord) (best : Option ServerRecord) (cs : List ServerRecord)
      → best_of score (some a) cs ≡ some w
      → score a.id < score w.id
      → Below best (score a.id)
      → best_of score best cs ≡ some w
  unfolding best_of beats
  best_of-Below a w best [] e h b = ground (arith)
  best_of-Below a w none (c ∷ cs) e h b = ground (arith, best_of-Below a w (some c) cs)
  best_of-Below a w (some d) (c ∷ cs) e h b =
      ground (arith, best_of-Below a w (some d) cs, best_of-Below a w (some c) cs)

  best_of-remove_server :
      (gone : Text) (w : ServerRecord) (best : Option ServerRecord) (cs : List ServerRecord)
      → best_of score best cs ≡ some w
      → (w.id == gone) ≡ false
      → best_of score best (remove_server cs gone) ≡ some w
  unfolding best_of remove_server keep
  best_of-remove_server gone w best [] e d = e
  best_of-remove_server gone w none (c ∷ cs) e d = ground (
    arith,
    best_of-remove_server gone w none cs,
    best_of-remove_server gone w (some c) cs,
    best_of_grows c w cs,
    best_of-Below c w none cs,
  )
  best_of-remove_server gone w (some b) (c ∷ cs) e d = ground (
    arith,
    best_of-remove_server gone w (some b) cs,
    best_of-remove_server gone w (some c) cs,
    best_of_grows c w cs,
    best_of-Below c w (some b) cs,
  )

  best_of-Listed :
      (w : ServerRecord) (best : Option ServerRecord) (cs : List ServerRecord)
      → best_of score best cs ≡ some w
      → (best ≡ some w) ⊎ Listed w cs
  unfolding best_of
  best_of-Listed w best [] e = inl e
  best_of-Listed w best (c ∷ cs) e = elim (Bool-cases (beats score best c)) [
    | inl t ↦ elim (best_of-Listed w (some c) cs (rw t at e)) [
      | inl f ↦ inr (0, f)
      | inr (n, f) ↦ inr (suc n, f)
    ]
    | inr t ↦ elim (best_of-Listed w best cs (rw t at e)) [
      | inl f ↦ inl f
      | inr (n, f) ↦ inr (suc n, f)
    ]
  ]

  best_of-some :
      (b : ServerRecord) (cs : List ServerRecord)
      → (w : ServerRecord) × (best_of score (some b) cs ≡ some w)
  unfolding best_of beats
  best_of-some b [] = (b, refl)
  best_of-some b (c ∷ cs) = elim (Bool-cases (ltb (score b.id) (score c.id))) [
    | inl t ↦ rw t (best_of-some c cs)
    | inr t ↦ rw t (best_of-some b cs)
  ]

  best_of_highest :
      (w : ServerRecord) (best : Option ServerRecord) (cs : List ServerRecord)
      → best_of score best cs ≡ some w
      → Below best (score w.id) × All (λ c. score c.id ≤ score w.id) cs
  unfolding best_of beats
  best_of_highest w none [] e = (tt, tt)
  best_of_highest w (some b) [] e = (ground (arith), tt)
  best_of_highest w none (c ∷ cs) e = (tt, best_of_highest w (some c) cs e)
  best_of_highest w (some b) (c ∷ cs) e = elim (Bool-cases (ltb (score b.id) (score c.id))) [
    | inl t ↦
        let (h, a) = best_of_highest w (some c) cs (rw t at e) in
        (omega (arith, ltb→lt (score b.id) (score c.id) t), (h, a))
    | inr t ↦ let (h, a) = best_of_highest w (some b) cs (rw t at e) in (h, (ground (arith), a))
  ]

module _ (hash : Text → ℕ) (fallback : RoutingStrategy) where
  session_affinity-best_of :
      (st : fallback.State) (ss : List ServerRecord) (req : RoutingRequest)
      → is_empty req.session_id ≡ false
      → (session_affinity hash fallback st ss req).0
        ≡ ok (best_of (hrw_score hash req.session_id) none ss)
  unfolding session_affinity
  session_affinity-best_of st [] req h = refl
  session_affinity-best_of st (c ∷ cs) req h = rw h refl

  -- For a session with an id and some candidate, one of the candidates is chosen, and no candidate
  -- has a higher score than it.
  session_affinity_highest :
      (st : fallback.State) (s : ServerRecord) (ss : List ServerRecord) (req : RoutingRequest)
      → is_empty req.session_id ≡ false
      → (w : ServerRecord) × ((session_affinity hash fallback st (s ∷ ss) req).0 ≡ ok (some w))
        × Listed w (s ∷ ss)
        × All
            (λ c. hrw_score hash req.session_id c.id ≤ hrw_score hash req.session_id w.id)
            (s ∷ ss)
  unfolding best_of
  session_affinity_highest st s ss req h =
      let score = hrw_score hash req.session_id in
      let (w, e) = best_of-some score s ss in
      elim (best_of-Listed score w none (s ∷ ss) e) [
        | inl f ↦ absurd (cc f)
        | inr l ↦ (
          w,
          session_affinity-best_of st (s ∷ ss) req h ∙ ap ok e,
          l,
          (best_of_highest score w none (s ∷ ss) e).1,
        )
      ]

  -- When one of the other candidates goes away, a session with an id stays with the server that was
  -- chosen for it.
  pub session_affinity-remove_server :
      (st : fallback.State) (ss : List ServerRecord) (req : RoutingRequest) (w : ServerRecord)
      (gone : Text)
      → is_empty req.session_id ≡ false
      → (session_affinity hash fallback st ss req).0 ≡ ok (some w)
      → (w.id == gone) ≡ false
      → (session_affinity hash fallback st (remove_server ss gone) req).0 ≡ ok (some w)
  session_affinity-remove_server st ss req w gone h e d =
      let score = hrw_score hash req.session_id in
      session_affinity-best_of st (remove_server ss gone) req h
      ∙ ap ok (
          best_of-remove_server score gone w none ss
            (cc (sym (session_affinity-best_of st ss req h) ∙ e)) d)

  pub session_affinity-Listed :
      (st : fallback.State) (ss : List ServerRecord) (req : RoutingRequest) (w : ServerRecord)
      → (session_affinity hash fallback st ss req).0 ≡ ok (some w)
      → Listed w ss
  unfolding session_affinity
  session_affinity-Listed st [] req w e = ground arith
  session_affinity-Listed st (c ∷ cs) req w e = elim (Bool-cases (is_empty req.session_id)) [
    | inl t ↦ fallback.select-Listed st (c ∷ cs) req w (rw t at e)
    | inr t ↦
        elim (best_of-Listed (hrw_score hash req.session_id) w none (c ∷ cs) (cc (rw t at e))) [
          | inl f ↦ absurd (cc f)
          | inr l ↦ l
        ]
  ]

  -- Session affinity over a fallback keeps what the interface asks for.
  abbrev pub affinity_strategy : RoutingStrategy
  affinity_strategy = record {
    State = fallback.State;
    select = session_affinity hash fallback;
    select-Listed = session_affinity-Listed;
  }
