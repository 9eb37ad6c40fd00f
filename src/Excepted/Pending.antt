-- ===== src/Excepted/Pending.antt =====
-- Where the operations of src/panda/excepted.h take an error that nobody has looked at.
use panda_lib.Base.{◌≡◌, refl, Bool, true, false, Option, none, some, ◌⊎◌, inl, inr}
use panda_lib.Excepted.{
  Excepted, Outcome, done, raised, nevermind, has_value, value, value_or, destroy, set_val, set_err,
  emplace, swap, move_new, assign_move, is_equal, is_value, is_unexpected,
}

-- What throws an error, if there is one.
abbrev pub throws {ℓ} : {E A : Type ℓ} → Option E → A → Outcome E A
throws none a = done a
throws (some e) a = raised e

module _ {ℓ} {T E : Type ℓ} where
  pending_of : T ⊎ E → Bool → Option E
  pending_of (inl v) b = none
  pending_of (inr e) true = none
  pending_of (inr e) false = some e

  -- The error that nobody has looked at.
  unfoldable pub pending : Excepted T E → Option E
  unfolding pending_of
  pending x = pending_of x.held x.checked

  abbrev at : T ⊎ E → Bool → Excepted T E
  at h b = record { held = h; checked = b }

  destroy-at : (h : T ⊎ E) (b : Bool) → destroy (at h b) ≡ throws (pending (at h b)) tt
  unfolding destroy pending
  destroy-at (inl v) b = refl
  destroy-at (inr e) true = refl
  destroy-at (inr e) false = refl

  -- The destructor throws exactly the error that nobody has looked at.
  pub destroy-pending : (x : Excepted T E) → destroy x ≡ throws (pending x) tt
  destroy-pending x = destroy-at x.held x.checked

  module _ (spent_val : T → T) (spent_err : E → E) where
    -- The new excepted of a move and what it leaves of the old one.
    abbrev pub IsMoved : Excepted T E → Excepted T E × Excepted T E → Type ℓ
    IsMoved x (new, old) = (new.held ≡ x.held) × (pending new ≡ pending x) × (pending old ≡ none)

    move_new-at :
        (was : Bool) (h : T ⊎ E) (b : Bool)
        → IsMoved (at h b) (move_new spent_val spent_err was (at h b))
    unfolding pending move_new
    move_new-at was (inl v) b = (refl, refl, refl)
    move_new-at was (inr e) true = (refl, refl, refl)
    move_new-at was (inr e) false = (refl, refl, refl)

    -- A move gives the content and the pending error to the new one, whatever its memory held, and
    -- leaves none in the old one.
    pub move_new-IsMoved :
        (was : Bool) (x : Excepted T E) → IsMoved x (move_new spent_val spent_err was x)
    move_new-IsMoved was x = move_new-at was x.held x.checked

    -- Where the contents and the pending errors are after an assignment from x to an excepted with
    -- this pending error.
    abbrev pub Assigned : Option E → Excepted T E → Outcome E (Excepted T E × Excepted T E) → Type ℓ
    Assigned (some e) x r = r ≡ raised e
    Assigned none x r = (both : Excepted T E × Excepted T E) × (r ≡ done both) × IsMoved x both

    assign_move-at :
        (h k : T ⊎ E) (b c : Bool)
        → Assigned (pending (at k c)) (at h b) (assign_move spent_val spent_err (at h b) (at k c))
    unfolding pending assign_move
    assign_move-at h (inr f) b false = refl
    assign_move-at (inl v) (inl w) b c = (_, refl, (refl, refl, refl))
    assign_move-at (inr e) (inl w) true c = (_, refl, (refl, refl, refl))
    assign_move-at (inr e) (inl w) false c = (_, refl, (refl, refl, refl))
    assign_move-at (inl v) (inr f) b true = (_, refl, (refl, refl, refl))
    assign_move-at (inr e) (inr f) true true = (_, refl, (refl, refl, refl))
    assign_move-at (inr e) (inr f) false true = (_, refl, (refl, refl, refl))

    -- Move assignment to an excepted with a pending error throws that error. Otherwise it gives the
    -- content and the pending error of the source to it and leaves none in the source.
    pub assign_move-Assigned :
        (x y : Excepted T E) → Assigned (pending y) x (assign_move spent_val spent_err x y)
    assign_move-Assigned x y = assign_move-at x.held y.held x.checked y.checked

  looked : (h : T ⊎ E) → pending (at h true) ≡ none
  unfolding pending
  looked (inl v) = refl
  looked (inr e) = refl

  -- `nevermind`, `has_value`, `value`, `value_or` and the comparisons leave no error that nobody has
  -- looked at.
  pub looked-pending :
      (x y : Excepted T E) (d : T) (f : E) (eq : T → T → Bool) (eq_err : E → E → Bool)
      → (pending (nevermind x) ≡ none)
        × (pending (has_value x).1 ≡ none)
        × (pending (value x).1 ≡ none)
        × (pending (value_or d x).1 ≡ none)
        × (pending (is_equal eq eq_err x y).1 ≡ none)
        × (pending (is_equal eq eq_err x y).2 ≡ none)
        × (pending (is_value eq d x).1 ≡ none)
        × (pending (is_unexpected eq_err f x).1 ≡ none)
  unfolding nevermind has_value value value_or is_equal is_value is_unexpected
  looked-pending x y d f eq eq_err =
      let one : pending (at x.held true) ≡ none = looked x.held in
      (one, one, one, one, one, looked y.held, one, one)

  -- `set_val`, `set_err` and an `emplace` that does not throw drop the pending error of the old
  -- content, whatever it was, without a throw.
  pub overwritten-pending :
      (x : Excepted T E) (v : T) (f : E)
      → (pending (set_val v x) ≡ none)
        × (pending (set_err f x) ≡ some f)
        × (pending (emplace (some v) x).1 ≡ none)
  unfolding pending set_val set_err emplace
  overwritten-pending x v f = (refl, refl, refl)

  -- The contents are exchanged.
  abbrev pub Exchanged : Excepted T E → Excepted T E → Excepted T E × Excepted T E → Type ℓ
  Exchanged x y (a, b) = (a.held ≡ y.held) × (b.held ≡ x.held)

  swap-at : (h k : T ⊎ E) (b c : Bool) → Exchanged (at h b) (at k c) (swap (at h b) (at k c))
  unfolding swap
  swap-at (inl v) (inl w) b c = (refl, refl)
  swap-at (inl v) (inr f) b c = (refl, refl)
  swap-at (inr e) (inl w) b c = (refl, refl)
  swap-at (inr e) (inr f) b c = (refl, refl)

  abbrev failed : E → Bool → Excepted T E
  failed e b = at (inr e) b

  abbrev fine : T → Bool → Excepted T E
  fine v b = at (inl v) b

  -- `swap` exchanges the contents. A pending error stays pending when it is exchanged with a value,
  -- but of two errors the marks are not exchanged: the one that nobody has looked at is no longer
  -- pending, and the one that was looked at is again.
  pub swap-pending :
      (x y : Excepted T E) (v : T) (e f : E) (was : Bool)
      → Exchanged x y (swap x y)
        × (pending (swap (fine v was) (failed f false)).0 ≡ some f)
        × (pending (swap (failed e false) (fine v was)).1 ≡ some e)
        × (pending (swap (failed e true) (failed f false)).0 ≡ none)
        × (pending (swap (failed e true) (failed f false)).1 ≡ some e)
  unfolding pending swap
  swap-pending x y v e f was = (swap-at x.held y.held x.checked y.checked, refl, refl, refl, refl)
