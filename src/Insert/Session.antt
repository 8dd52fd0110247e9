-- ===== src/Insert/Session.antt =====
-- The insert session that one `ch_send_block` opens and closes.
use php_clickhouse.Base.{
  ◌≡◌, ◌≢◌, ◌⊎◌, inl, inr, refl, ap, sym, subst, ◌∙◌, Bytes, Bool, true, false, List, [], ◌∷◌, ◌++◌,
  append_assoc, none, arith, Bool-cases,
}
use php_clickhouse.Errors.{
  Exception, Outcome, returns, throws, Outcome-cases, exception_poisons_connection,
}
use php_clickhouse.Errors.Translation.{translate-ne-none}
use php_clickhouse.Insert.{
  Call, begin_insert, send_insert_block, end_insert, Library, Wire, called, make, close_result,
  caught, after_end, after_send, send_filled, filled, send_block, name_columns, InsertRow,
}

three_calls {ℓ} :
    {A : Type ℓ} (xs : List A) (a b c : A)
    → ((xs ++ a ∷ []) ++ b ∷ []) ++ c ∷ [] ≡ xs ++ (a ∷ b ∷ c ∷ [])
three_calls xs a b c = simp append_assoc

module _ {Column : Type 0} (lib : Library Column) where
  -- The last call closed the session, and the library took it.
  abbrev pub EndsClosed : Wire Column → Type 0
  EndsClosed w =
      (cs : List (Call Column)) × (w.calls ≡ cs ++ end_insert ∷ [])
      × (lib.answers (cs ++ end_insert ∷ []) ≡ returns tt)

  abbrev pub Settled : Wire Column → Type 0
  Settled w = (w.broken ≡ true) ⊎ EndsClosed w

  make-returns :
      (call : Call Column) (w : Wire Column)
      → lib.answers (w.calls ++ call ∷ []) ≡ returns tt
      → make lib call w ≡ (called lib call w, returns tt)
  unfolding make
  make-returns call w h = rw h

  make-throws :
      (call : Call Column) (w : Wire Column) (e : Exception)
      → lib.answers (w.calls ++ call ∷ []) ≡ throws e
      → make lib call w ≡ (called lib call w, throws e)
  unfolding make
  make-throws call w e h = rw h

  caught-Settled : (e : Exception) (w : Wire Column) → Settled (caught lib e w).0
  unfolding caught close_result make called
  caught-Settled e w = elim (Bool-cases (exception_poisons_connection e)) [
    | inl bad ↦ inl (rw (bad, caught) refl)
    | inr good ↦ elim (Outcome-cases (lib.answers (w.calls ++ end_insert ∷ []))) [
      | inl (tt', h) ↦ inr (w.calls, ground arith, h)
      | inr (x, h) ↦ inl (ground arith)
    ]
  ]

  after_end-Settled : (w : Wire Column) → Settled (after_end lib (make lib end_insert w)).0
  unfolding after_end
  after_end-Settled w = elim (Outcome-cases (lib.answers (w.calls ++ end_insert ∷ []))) [
    | inl (done, h) ↦ rw (make-returns end_insert w h) (unfold called in inr (w.calls, refl, h))
    | inr (e, h) ↦ rw (make-throws end_insert w e h) (caught-Settled e (called lib end_insert w))
  ]

  send_filled-Settled :
      (names : List Bytes) (o : Outcome (List Column)) (w : Wire Column)
      → Settled (send_filled lib names o w).0
  unfolding send_filled after_send
  send_filled-Settled names (throws e) w = caught-Settled e w
  send_filled-Settled names (returns cols) w =
      let call = send_insert_block (name_columns names cols) in
      elim (Outcome-cases (lib.answers (w.calls ++ call ∷ []))) [
        | inl (sent, h) ↦ rw (make-returns call w h) (after_end-Settled (called lib call w))
        | inr (e, h) ↦ rw (make-throws call w e h) (caught-Settled e (called lib call w))
      ]

  -- The handler answers false, leaves an exception pending, and calls nothing or the end of the session.
  caught-false : (e : Exception) (w : Wire Column) → (caught lib e w).1 ≡ false
  unfolding caught
  caught-false e w = refl

  caught-pending : (e : Exception) (w : Wire Column) → (caught lib e w).0.pending ≢ none
  unfolding caught
  caught-pending e w = translate-ne-none e _

  caught-calls :
      (e : Exception) (w : Wire Column)
      → ((caught lib e w).0.calls ≡ w.calls)
        ⊎ ((caught lib e w).0.calls ≡ w.calls ++ end_insert ∷ [])
  unfolding caught close_result make called
  caught-calls e w = elim (Bool-cases (exception_poisons_connection e)) [
    | inl bad ↦ inl (rw (bad, caught) refl)
    | inr good ↦ inr (ground (arith, Outcome-cases (lib.answers (w.calls ++ end_insert ∷ []))))
  ]

  after_end-cases :
      (w : Wire Column)
      → (after_end lib (make lib end_insert w) ≡ (called lib end_insert w, true))
        ⊎ ((e : Exception) × (after_end lib (make lib end_insert w)
              ≡ caught lib e (called lib end_insert w)))
  unfolding after_end
  after_end-cases w = elim (Outcome-cases (lib.answers (w.calls ++ end_insert ∷ []))) [
    | inl (done, h) ↦ inl (rw (make-returns end_insert w h))
    | inr (e, h) ↦ inr (e, rw (make-throws end_insert w e h))
  ]

  -- What a block of filled columns comes to: all calls return, or one of them is caught.
  abbrev Sends : List Bytes → Outcome (List Column) → Wire Column → Wire Column × Bool → Type 0
  Sends names o w q =
      ((cols : List Column) × (o ≡ returns cols)
        × (q ≡ (
          called lib end_insert (called lib (send_insert_block (name_columns names cols)) w),
          true,
        )))
      ⊎ ((e : Exception) × (w' : Wire Column) × (q ≡ caught lib e w'))

  send_filled-cases :
      (names : List Bytes) (o : Outcome (List Column)) (w : Wire Column)
      → Sends names o w (send_filled lib names o w)
  unfolding send_filled after_send
  send_filled-cases names (throws e) w = inr (e, w, refl)
  send_filled-cases names (returns cols) w =
      let call = send_insert_block (name_columns names cols) in
      elim (Outcome-cases (lib.answers (w.calls ++ call ∷ []))) [
        | inl (sent, h) ↦ elim (after_end-cases (called lib call w)) [
          | inl ok ↦ inl (cols, refl, rw (make-returns call w h) ok)
          | inr (e, bad) ↦
              inr (e, called lib end_insert (called lib call w), rw (make-returns call w h) bad)
        ]
        | inr (e, h) ↦ inr (e, called lib call w, rw (make-throws call w e h) refl)
      ]

module _ {Column Cell : Type 0} (append_value : Column → Cell → Outcome Column)
    (lib : Library Column) (statement : Bytes) (names : List Bytes) (rows : List (InsertRow Cell))
    (w : Wire Column) where
  -- However an insert ends, the connection is either marked as broken or its insert session was
  -- closed by the last call, which the library took.
  pub send_block-Settled : Settled lib (send_block append_value lib statement names rows w).0
  unfolding send_block
  send_block-Settled =
      send_filled-Settled lib names (filled append_value lib statement names rows w.calls)
        (called lib (begin_insert statement) w)

  -- An insert that fails leaves a PHP exception pending.
  pub send_block-failure :
      (send_block append_value lib statement names rows w).1 ≡ false
      → (send_block append_value lib statement names rows w).0.pending ≢ none
  unfolding send_block
  send_block-failure h =
      elim (send_filled-cases lib names (filled append_value lib statement names rows w.calls)
        (called lib (begin_insert statement) w)) [
          | inl (cols, filled, ok) ↦ cc (ap (λ q. q.1) ok)
          | inr (e, w', bad) ↦
              subst (λ (q : Wire Column × Bool). q.0.pending ≢ none) (sym bad)
                (caught-pending lib e w')
        ]

  -- An insert that succeeds has made exactly three calls: the session is opened, one block is sent
  -- that holds the filled columns under their names, and the session is closed. The connection's
  -- flag stays.
  pub send_block-success :
      (send_block append_value lib statement names rows w).1 ≡ true
      → (cols : List Column) × (filled append_value lib statement names rows w.calls ≡ returns cols)
        × ((send_block append_value lib statement names rows w).0.calls
            ≡ w.calls
              ++ (begin_insert statement
                  ∷ send_insert_block (name_columns names cols)
                  ∷ end_insert
                  ∷ []))
        × ((send_block append_value lib statement names rows w).0.broken ≡ w.broken)
  unfolding send_block called
  send_block-success h =
      elim (send_filled-cases lib names (filled append_value lib statement names rows w.calls)
        (called lib (begin_insert statement) w)) [
          | inl (cols, filled, ok) ↦ (
            cols,
            filled,
            ap (λ q. q.0.calls) ok ∙ three_calls w.calls _ _ _,
            ap (λ q. q.0.broken) ok,
          )
          | inr (e, w', bad) ↦ absurd (cc (ap (λ q. q.1) bad, caught-false lib e w'))
        ]

  -- Where the columns cannot be filled, as for a row of the wrong shape, the insert fails and no
  -- block is sent: the session is opened, and closed at most.
  pub send_block-unsent :
      (e : Exception)
      → filled append_value lib statement names rows w.calls ≡ throws e
      → ((send_block append_value lib statement names rows w).1 ≡ false)
        × (((send_block append_value lib statement names rows w).0.calls
              ≡ w.calls ++ begin_insert statement ∷ [])
            ⊎ ((send_block append_value lib statement names rows w).0.calls
                ≡ w.calls ++ (begin_insert statement ∷ end_insert ∷ [])))
  unfolding send_block send_filled caught
  send_block-unsent e h =
      let w' = called lib (begin_insert statement) w in
      rw h (
        refl,
        elim (caught-calls lib e w') [
          | inl same ↦ inl (unfold called in same)
          | inr closed ↦ inr (unfold called in closed ∙ append_assoc w.calls _ _)
        ],
      )
