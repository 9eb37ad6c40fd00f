-- ===== src/CallbackDispatcher/Order.antt =====
-- The order in which the dispatcher of src/panda/CallbackDispatcher.h calls its listeners, and removal.
use panda_lib.Base.{
  ℕ, zero, suc, ◌≤◌, ◌≡◌, refl, sym, ap, ◌∙◌, Bool, true, false, Option, none, some, List, [], ◌∷◌,
  ◌++◌, append-nil, append_assoc, length, arith,
}
use panda_lib.CallbackDispatcher.{
  Script, ends, asks, Wrapper, real, simple, Called, run_script, invoke, next, dispatch, equal,
  remove, remove_last,
}

module _ {ℓ} {A R : Type ℓ} where
  -- A script that asks for the next listener once at most, and a listener whose scripts do so.
  abbrev pub IsEnd : Script A R → Type 0
  IsEnd (ends r) = Unit {0}
  IsEnd (asks a k) = ⊥

  abbrev pub AsksOnce : Script A R → Type ℓ
  AsksOnce (ends r) = Unit {ℓ}
  AsksOnce (asks a k) = (r : Option R) → IsEnd (k r)

  abbrev pub IsOrderly : Wrapper A R → Type ℓ
  IsOrderly (real n f) = (a : A) → AsksOnce (f a)
  IsOrderly (simple n) = Unit {ℓ}

  abbrev pub AllOrderly : List (Wrapper A R) → Type ℓ
  AllOrderly [] = Unit {ℓ}
  AllOrderly (w ∷ ws) = IsOrderly w × AllOrderly ws

  -- What listeners result in for arguments, and their calls in order: a simple listener leaves both
  -- to the listeners behind it, another one ends, or asks those behind it with arguments of its own
  -- and ends with what it makes of their result. Nobody results in nothing.
  pub data Answers : List (Wrapper A R) → A → Option R → List (ℕ × A) → Type ℓ where
    nobody : (args : A) → Answers [] args none []
    passed :
        (n : ℕ) (ws : List (Wrapper A R)) (args : A) (r : Option R) (calls : List (ℕ × A))
        → Answers ws args r calls
        → Answers (simple n ∷ ws) args r ((n, args) ∷ calls)
    ended :
        (n : ℕ) (f : A → Script A R) (ws : List (Wrapper A R)) (args : A) (r : Option R)
        → f args ≡ ends r
        → Answers (real n f ∷ ws) args r ((n, args) ∷ [])
    asked :
        (n : ℕ) (f : A → Script A R) (ws : List (Wrapper A R)) (args a : A)
        (k : Option R → Script A R) (q r : Option R) (calls : List (ℕ × A))
        → f args ≡ asks a k
        → Answers ws a q calls
        → k q ≡ ends r
        → Answers (real n f ∷ ws) args r ((n, args) ∷ calls)

  -- The call ends with what these listeners result in, and their calls come behind those before.
  abbrev pub Orderly : List (Wrapper A R) → A → List (ℕ × A) → Called A R → Type ℓ
  Orderly ws args before c =
      (r : Option R) × (state : List (Wrapper A R)) × (calls : List (ℕ × A)) × (c
        ≡ some (r, state, before ++ calls))
      × Answers ws args r calls

  script_end :
      (go : List (Wrapper A R) → A → List (ℕ × A) → Called A R) (s : Script A R)
      (state : List (Wrapper A R)) (calls : List (ℕ × A))
      → IsEnd s
      → (r : Option R) × (s ≡ ends r) × (run_script go s state calls ≡ some (r, state, calls))
  unfolding run_script
  script_end go (ends r) state calls e = (r, refl, refl)
  script_end go (asks a k) state calls e = absurd e

  scripted :
      (go : List (Wrapper A R) → A → List (ℕ × A) → Called A R) (n : ℕ) (f : A → Script A R)
      (args : A) (s : Script A R) (state ws : List (Wrapper A R)) (before : List (ℕ × A))
      → f args ≡ s
      → AsksOnce s
      → ((a : A) (cs : List (ℕ × A)) → Orderly ws a cs (go state a cs))
      → Orderly (real n f ∷ ws) args before (run_script go s state (before ++ (n, args) ∷ []))
  unfolding run_script
  scripted go n f args (ends r) state ws before e o rest =
      (r, state, (n, args) ∷ [], refl, ended n f ws args r e)
  scripted go n f args (asks a k) state ws before e o rest =
      let (q, after, calls, found, answer) = rest a (before ++ (n, args) ∷ []) in
      let (r, is_end, done) = script_end go (k q) after (before ++ (n, args) ∷ [] ++ calls) (o q) in
      let step : run_script go (asks a k) state (before ++ (n, args) ∷ [])
          ≡ run_script go (k q) after (before ++ (n, args) ∷ [] ++ calls) =
        λ i. elim (found i) as (λ c. Called A R) [
          | none ↦ none
          | some (p, place, more) ↦ run_script go (k p) place more
        ] in
      (
        r,
        after,
        (n, args) ∷ calls,
        step ∙ done ∙ ap (λ cs. some (r, after, cs)) (append_assoc before ((n, args) ∷ []) calls),
        asked n f ws args a k q r calls e answer is_end,
      )

  -- A listener before others that are called in order.
  invoked :
      (go : List (Wrapper A R) → A → List (ℕ × A) → Called A R) (w : Wrapper A R)
      (ws : List (Wrapper A R)) (args : A) (before : List (ℕ × A))
      → IsOrderly w
      → ((a : A) (cs : List (ℕ × A)) → Orderly ws a cs (go (w ∷ ws) a cs))
      → Orderly (w ∷ ws) args before (invoke go w (w ∷ ws) args before)
  unfolding invoke
  invoked go (real n f) ws args before o rest =
      scripted go n f args (f args) (real n f ∷ ws) ws before refl (o args) rest
  invoked go (simple n) ws args before o rest =
      let (r, after, calls, found, answer) = rest args (before ++ (n, args) ∷ []) in
      (
        r,
        after,
        (n, args) ∷ calls,
        found ∙ ap (λ cs. some (r, after, cs)) (append_assoc before ((n, args) ∷ []) calls),
        passed n ws args r calls answer,
      )

  next-Orderly :
      (fuel : ℕ) (w : Wrapper A R) (ws : List (Wrapper A R)) (args : A) (before : List (ℕ × A))
      → AllOrderly ws
      → length ws ≤ fuel
      → Orderly ws args before (next fuel (w ∷ ws) args before)
  unfolding next
  next-Orderly fuel w [] args before o enough =
      (none, [], [], ap (λ cs. some (none, [], cs)) (sym (append-nil before)), nobody args)
  next-Orderly zero w (v ∷ vs) args before o enough = absurd (omega arith)
  next-Orderly (suc fuel) w (v ∷ vs) args before o enough =
      invoked (next fuel) v vs args before o.0
        (λ a cs. next-Orderly fuel v vs a cs o.1 (omega arith))

  -- A call of listeners each of which asks for the next one once at most ends without a fault, with
  -- the result and the calls that the listeners answer with: the first is called with the arguments
  -- of the dispatcher, a simple one is followed by the next with the same arguments, and another one
  -- ends, or is followed by the next with those that it asks with and ends with what it makes of
  -- the result. The fuel is the number of listeners.
  pub dispatch-Orderly :
      (fuel : ℕ) (ws : List (Wrapper A R)) (args : A)
      → AllOrderly ws
      → length ws ≤ fuel
      → Orderly ws args [] (dispatch fuel ws args)
  unfolding dispatch
  dispatch-Orderly fuel [] args o enough = (none, [], [], refl, nobody args)
  dispatch-Orderly fuel (w ∷ ws) args o enough =
      invoked (next fuel) w ws args [] o.0 (λ a cs. next-Orderly fuel w ws a cs o.1 (omega arith))

  -- Each of these listeners asks first of all for the one behind it, the last one with arguments.
  pub data Reaches : List (Wrapper A R) → A → A → Type ℓ where
    arrived : (args : A) → Reaches [] args args
    through :
        (n : ℕ) (ws : List (Wrapper A R)) (args last : A)
        → Reaches ws args last
        → Reaches (simple n ∷ ws) args last
    asking :
        (n : ℕ) (f : A → Script A R) (ws : List (Wrapper A R)) (args a last : A)
        (k : Option R → Script A R)
        → f args ≡ asks a k
        → Reaches ws a last
        → Reaches (real n f ∷ ws) args last

  fault_in :
      (go : List (Wrapper A R) → A → List (ℕ × A) → Called A R) (s : Script A R) (a : A)
      (k : Option R → Script A R) (state : List (Wrapper A R)) (calls : List (ℕ × A))
      → s ≡ asks a k
      → go state a calls ≡ none
      → run_script go s state calls ≡ none
  unfolding run_script
  fault_in go s a k state calls e none_there = ap (λ z. run_script go z state calls) e ∙ (λ i.
      elim (none_there i) as (λ c. Called A R) [
        | none ↦ none
        | some (q, place, more) ↦ run_script go (k q) place more
      ])

  -- A listener that asks twice where there is no other behind it.
  asks_twice :
      (fuel n : ℕ) (f : A → Script A R) (args a b : A) (g k : Option R → Script A R)
      (calls : List (ℕ × A))
      → f args ≡ asks a g
      → g none ≡ asks b k
      → invoke (next fuel) (real n f) (real n f ∷ []) args calls ≡ none
  unfolding invoke run_script next
  asks_twice fuel n f args a b g k calls e second =
      ap (λ s. run_script (next fuel) s (real n f ∷ []) (calls ++ (n, args) ∷ [])) e
      ∙ fault_in (next fuel) (g none) b k [] (calls ++ (n, args) ∷ []) second refl

  module _ (n : ℕ) (f : A → Script A R) (last a b : A) (g k : Option R → Script A R)
      (e : f last ≡ asks a g) (second : g none ≡ asks b k) where
    next_twice :
        (fuel : ℕ) (w : Wrapper A R) (ws : List (Wrapper A R)) (args : A) (calls : List (ℕ × A))
        → Reaches ws args last
        → next fuel (w ∷ (ws ++ real n f ∷ [])) args calls ≡ none
    unfolding next invoke
    next_twice zero w _ _ calls (arrived _) = refl
    next_twice zero w _ _ calls (through m ws args _ there) = refl
    next_twice zero w _ _ calls (asking m h ws args c _ q first there) = refl
    next_twice (suc fuel) w _ _ calls (arrived _) = asks_twice fuel n f last a b g k calls e second
    next_twice (suc fuel) w _ _ calls (through m ws args _ there) =
        next_twice fuel (simple m) ws args (calls ++ (m, args) ∷ []) there
    next_twice (suc fuel) w _ _ calls (asking m h ws args c _ q first there) =
        fault_in (next fuel) (h args) c q (real m h ∷ (ws ++ real n f ∷ []))
          (calls ++ (m, args) ∷ []) first
          (next_twice fuel (real m h) ws c (calls ++ (m, args) ∷ []) there)

    -- A last listener that asks for the next one a second time, when those before it have each
    -- asked for the one behind it, makes the iterator go on from the end, whatever the fuel.
    pub dispatch_twice :
        (fuel : ℕ) (ws : List (Wrapper A R)) (args : A)
        → Reaches ws args last
        → dispatch fuel (ws ++ real n f ∷ []) args ≡ none
    unfolding dispatch invoke
    dispatch_twice fuel _ _ (arrived _) = asks_twice fuel n f last a b g k [] e second
    dispatch_twice fuel _ _ (through m ws args _ there) =
        next_twice fuel (simple m) ws args ((m, args) ∷ []) there
    dispatch_twice fuel _ _ (asking m h ws args c _ q first there) =
        fault_in (next fuel) (h args) c q (real m h ∷ (ws ++ real n f ∷ [])) ((m, args) ∷ []) first
          (next_twice fuel (real m h) ws c ((m, args) ∷ []) there)

  -- None of these listeners is equal to the callback.
  abbrev pub NoneEqual : Wrapper A R → List (Wrapper A R) → Type 0
  NoneEqual w [] = Unit {0}
  NoneEqual w (v ∷ vs) = (equal v w ≡ false) × NoneEqual w vs

  not_found :
      (w : Wrapper A R) (vs : List (Wrapper A R)) → NoneEqual w vs → remove_last w vs ≡ (false, vs)
  unfolding remove_last
  not_found w [] n = refl
  not_found w (v ∷ vs) n = rw (not_found w vs n.1, n.0) refl

  found_last :
      (w v : Wrapper A R) (vs ws : List (Wrapper A R))
      → equal v w ≡ true
      → NoneEqual w ws
      → remove_last w (vs ++ v ∷ ws) ≡ (true, vs ++ ws)
  unfolding remove_last
  found_last w v [] ws e n = rw (not_found w ws n, e) refl
  found_last w v (u ∷ vs) ws e n = rw (found_last w v vs ws e n) refl

  -- `remove` takes out the last listener that is equal to the callback alone, and nothing where none
  -- is.
  pub remove_lem :
      (w v : Wrapper A R) (vs ws us : List (Wrapper A R))
      → equal v w ≡ true
      → NoneEqual w ws
      → NoneEqual w us
      → (remove w (vs ++ v ∷ ws) ≡ vs ++ ws) × (remove w us ≡ us)
  unfolding remove
  remove_lem w v vs ws us e n m = (
    ap (λ (p : Bool × List (Wrapper A R)). p.1) (found_last w v vs ws e n),
    ap (λ (p : Bool × List (Wrapper A R)). p.1) (not_found w us m),
  )
