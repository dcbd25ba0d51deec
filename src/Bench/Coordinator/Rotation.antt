-- ===== src/Bench/Coordinator/Rotation.antt =====
-- cmd/bench_signaling/main.go: in which order the agents are tried.
use webrtc_dht.Prelude.{
  ℕ, zero, suc, ◌+◌, ◌-◌, ◌%◌, ◌≤◌, ◌<◌, ◌≡◌, refl, ap, ◌∙◌, sym, Bool, true, false, Option, none,
  some, inl, inr, List, [], ◌∷◌, ◌++◌, arith, length, get_or, take, drop, length-append,
  length-take, length-drop, Text, Occurs, dec_lt, fun_ext,
}
use native.Mathlib.Nat.{mod-eq_of_lt, mod-eq-sub-mod}
use webrtc_dht.Types.{Error}
use webrtc_dht.Bench.Coordinator.{tried, dispatch_from, dispatch_pair}

-- The agents from one on, and then those before it.
abbrev pub rotation : ℕ → List Text → List Text
rotation start agents = drop start agents ++ take start agents

module _ {A : Type 0} (d : A) where
  get_or-append_left :
      (xs ys : List A) (i : ℕ) → i < length xs → get_or (xs ++ ys) i d ≡ get_or xs i d
  get_or-append_left [] ys i h = absurd (omega arith)
  get_or-append_left (x ∷ xs) ys zero h = refl
  get_or-append_left (x ∷ xs) ys (suc i) h = get_or-append_left xs ys i (omega arith)

  get_or-append_right :
      (xs ys : List A) (i j : ℕ) → length xs + j ≡ i → get_or (xs ++ ys) i d ≡ get_or ys j d
  get_or-append_right [] ys i j h = ap (λ k. get_or ys k d) {x = i} {y = j} (omega arith)
  get_or-append_right (x ∷ xs) ys zero j h = absurd (omega arith)
  get_or-append_right (x ∷ xs) ys (suc i) j h = get_or-append_right xs ys i j (omega arith)

  get_or-drop : (n : ℕ) (xs : List A) (i : ℕ) → get_or (drop n xs) i d ≡ get_or xs (n + i) d
  get_or-drop zero xs i = ap (λ k. get_or xs k d) {x = i} {y = 0 + i} (omega arith)
  get_or-drop (suc n) [] i = refl
  get_or-drop (suc n) (x ∷ xs) i =
      get_or-drop n xs i
      ∙ ap (λ k. get_or (x ∷ xs) k d) {x = suc (n + i)} {y = suc n + i} (omega arith)

  get_or-take : (n : ℕ) (xs : List A) (i : ℕ) → i < n → get_or (take n xs) i d ≡ get_or xs i d
  get_or-take zero xs i h = absurd (omega arith)
  get_or-take (suc n) [] i h = refl
  get_or-take (suc n) (x ∷ xs) zero h = refl
  get_or-take (suc n) (x ∷ xs) (suc i) h = get_or-take n xs i (omega arith)

  drop-next : (i : ℕ) (xs : List A) → i < length xs → drop i xs ≡ get_or xs i d ∷ drop (suc i) xs
  drop-next i [] h = absurd (omega arith)
  drop-next zero (x ∷ xs) h = refl
  drop-next (suc i) (x ∷ xs) h = drop-next i xs (omega arith)

drop_all : (xs : List Text) (n : ℕ) → length xs ≤ n → drop n xs ≡ []
drop_all [] zero h = refl
drop_all [] (suc n) h = refl
drop_all (x ∷ xs) zero h = absurd (omega arith)
drop_all (x ∷ xs) (suc n) h = drop_all xs n (omega arith)

module _ (start : ℕ) (agents : List Text) (in_range : start < length agents) where
  get_or-rotation :
      (t : ℕ)
      → t < length agents
      → get_or (rotation start agents) t [] ≡ get_or agents ((start + t) % length agents) []
  get_or-rotation t h = elim (dec_lt (start + t) (length agents)) [
    | yes before ↦
        get_or-append_left [] (drop start agents) (take start agents) t
          (omega (arith, length-drop start agents))
        ∙ get_or-drop [] start agents t
        ∙ ap (λ i. get_or agents i []) (sym (mod-eq_of_lt before))
    | no after ↦
        let i = start + t - length agents in
        let small : i < length agents = omega arith in
        get_or-append_right [] (drop start agents) (take start agents) t i
          (omega (arith, length-drop start agents))
        ∙ get_or-take [] start agents i (omega arith)
        ∙ ap (λ j. get_or agents j [])
            (sym (
              mod-eq-sub-mod {n = start + t} {m = length agents} (omega arith)
              ∙ mod-eq_of_lt small))
  ]

  length-rotation : length (rotation start agents) ≡ length agents
  length-rotation = omega (
    arith,
    length-append (drop start agents) (take start agents),
    length-drop start agents,
    length-take start agents,
  )

Occurs-append_left : (a : Text) (xs ys : List Text) → Occurs a xs → Occurs a (xs ++ ys)
Occurs-append_left a [] ys o = absurd o
Occurs-append_left a (x ∷ xs) ys (inl e) = inl e
Occurs-append_left a (x ∷ xs) ys (inr o) = inr (Occurs-append_left a xs ys o)

Occurs-append_right : (a : Text) (xs ys : List Text) → Occurs a ys → Occurs a (xs ++ ys)
Occurs-append_right a [] ys o = o
Occurs-append_right a (x ∷ xs) ys o = inr (Occurs-append_right a xs ys o)

Occurs-rotation : (a : Text) (n : ℕ) (xs : List Text) → Occurs a xs → Occurs a (rotation n xs)
Occurs-rotation a zero xs o = Occurs-append_left a xs [] o
Occurs-rotation a (suc n) [] o = absurd o
Occurs-rotation a (suc n) (x ∷ xs) (inl e) =
    Occurs-append_right a (drop n xs) (x ∷ take n xs) (inl e)
Occurs-rotation a (suc n) (x ∷ xs) (inr o) = widened (drop n xs) (Occurs-rotation a n xs o)
  where
    widened : (ys : List Text) → Occurs a (ys ++ take n xs) → Occurs a (ys ++ x ∷ take n xs)
    widened [] p = inr p
    widened (y ∷ ys) (inl e) = inl e
    widened (y ∷ ys) (inr p) = inr (widened ys p)

module _ {W : Type 0} (post : W → Text → W × Option Error) where
  -- The agents of a list one after another, up to the first that accepts.
  unfoldable pub try_each : List Text → W → W × Bool
  unfolding tried
  try_each [] w = (w, false)
  try_each (agent ∷ agents) w = tried post (try_each agents) (post w agent)

  dispatch_from-try_each :
      (agents : List Text) (start attempt left : ℕ)
      → start < length agents
      → attempt + left ≡ length agents
      → (w : W)
      → dispatch_from post agents start attempt left w
        ≡ try_each (drop attempt (rotation start agents)) w
  unfolding dispatch_from try_each
  dispatch_from-try_each agents start attempt zero h e w =
      let size = length-rotation start agents h in
      ap (λ l. try_each l w) (sym (drop_all (rotation start agents) attempt (omega (arith, size))))
  dispatch_from-try_each agents start attempt (suc left) h e w =
      let size = length-rotation start agents h in
      let again =
        fun_ext (dispatch_from-try_each agents start (suc attempt) left h (omega arith)) in
      let here = sym (get_or-rotation start agents h attempt (omega arith)) in
      (λ i. tried post (again i) (post w (here i)))
      ∙ ap (λ l. try_each l w)
          (sym (drop-next [] attempt (rotation start agents) (omega (arith, size))))

  tried-true :
      (agents : List Text) (r : W × Option Error)
      → ((w : W) → (try_each agents w).1 ≡ true)
      → (tried post (try_each agents) r).1 ≡ true
  unfolding tried
  tried-true agents (w, none) h = refl
  tried-true agents (w, some e) h = h w

  tried-accepted :
      (agents : List Text) (r : W × Option Error)
      → r.1 ≡ none
      → (tried post (try_each agents) r).1 ≡ true
  unfolding tried
  tried-accepted agents (w, none) e = refl
  tried-accepted agents (w, some f) e = absurd (cc)

  try_each-true :
      (agent : Text)
      → ((w : W) → (post w agent).1 ≡ none)
      → (agents : List Text) → Occurs agent agents
      → (w : W) → (try_each agents w).1 ≡ true
  unfolding try_each
  try_each-true agent h [] o w = absurd o
  try_each-true agent h (a ∷ agents) (inl e) w =
      tried-accepted agents (post w a) (ap (λ b. (post w b).1) e ∙ h w)
  try_each-true agent h (a ∷ agents) (inr o) w =
      tried-true agents (post w a) (try_each-true agent h agents o)

  -- Wherever it begins among them, a dispatch tries the agents one after another, from there on and
  -- around, each once at most and up to the first that accepts.
  pub dispatch_pair-try_each :
      (agents : List Text) (start : ℕ)
      → start < length agents
      → (w : W) → dispatch_pair post agents start w ≡ try_each (rotation start agents) w
  unfolding dispatch_pair
  dispatch_pair-try_each agents start h w =
      dispatch_from-try_each agents start 0 (length agents) h (omega arith) w

  -- If one of the agents accepts whenever it is asked, a dispatch succeeds.
  pub dispatch_accepted :
      (agents : List Text) (start : ℕ)
      → start < length agents
      → (agent : Text) → Occurs agent agents
      → ((u : W) → (post u agent).1 ≡ none)
      → (w : W) → (dispatch_pair post agents start w).1 ≡ true
  dispatch_accepted agents start h agent o accepts w =
      ap (λ r. r.1) (dispatch_pair-try_each agents start h w)
      ∙ try_each-true agent accepts (rotation start agents) (Occurs-rotation agent start agents o) w
