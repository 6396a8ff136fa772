-- ===== src/Worker/Pool/Names.antt =====
-- The id of a worker tells its host, its process and its place in the pool.
use notify_queue.Base.{
  ℕ, zero, suc, ◌+◌, some, get_elem?, ◌==◌, ◌≡◌, refl, sym, ap, subst, ◌∙◌, false, [], ◌∷◌, ◌++◌,
  Text, codes, take, All, All-map, All-take, arith,
}
use notify_queue.Base.Decimal.{decimal, decimal_inj, decimal-All}
use notify_queue.Settings.{Settings}
use notify_queue.Worker.Pool.{base_of, worker_name, names_from, worker_names}

abbrev dash : ℕ
dash = b'-'

abbrev pub HasNoDash : Text → Type 0
HasNoDash = All (λ c. (c == b'-') ≡ false)

decimal-HasNoDash : (n : ℕ) → HasNoDash (decimal n)
decimal-HasNoDash n = All-map (decimal n) (λ c h. ground arith) (decimal-All n)

dash_in : (t u : Text) → HasNoDash (t ++ dash ∷ u) → ⊥
dash_in [] u h = ground arith
dash_in (c ∷ t) u h = dash_in t u h.1

-- The last dash splits a text in one way.
last_dash :
    (a b t u : Text) → HasNoDash t → HasNoDash u → a ++ dash ∷ t ≡ b ++ dash ∷ u → (a ≡ b) × (t ≡ u)
last_dash [] [] t u ht hu e = (refl, cc)
last_dash [] (c ∷ b) t u ht hu e =
    let tails : t ≡ b ++ dash ∷ u = cc in absurd (dash_in b u (subst HasNoDash tails ht))
last_dash (c ∷ a) [] t u ht hu e =
    let tails : u ≡ a ++ dash ∷ t = cc in absurd (dash_in a t (subst HasNoDash tails hu))
last_dash (c ∷ a) (d ∷ b) t u ht hu e =
    let heads : c ≡ d = cc in
    let (tails, ends) = last_dash a b t u ht hu cc in
    (ap (λ x. x ∷ a) heads ∙ ap (λ l. d ∷ l) tails, ends)

joined : (x t : Text) → (x ++ codes "-") ++ t ≡ x ++ dash ∷ t
joined [] t = refl
joined (c ∷ x) t = ap (λ l. c ∷ l) (joined x t)

split_base :
    (h h' : Text) (pid pid' : ℕ) → base_of h pid ≡ base_of h' pid' → (h ≡ h') × (pid ≡ pid')
split_base h h' pid pid' e =
    let (hosts, pids) =
      last_dash h h' (decimal pid) (decimal pid') (decimal-HasNoDash pid) (decimal-HasNoDash pid')
        (sym (joined h (decimal pid)) ∙ e ∙ joined h' (decimal pid')) in
    (hosts, decimal_inj pid pid' pids)

split_name :
    (b b' : Text) (i i' : ℕ) (hex hex' : Text)
    → HasNoDash hex
    → HasNoDash hex'
    → worker_name b i hex ≡ worker_name b' i' hex'
    → (b ≡ b') × (i ≡ i')
split_name b b' i i' hex hex' h h' e =
    let front = b ++ codes "-" ++ decimal i in
    let front' = b' ++ codes "-" ++ decimal i' in
    let fronts =
      last_dash front front' (take 6 hex) (take 6 hex')
        (All-take (λ c. (c == dash) ≡ false) 6 hex h)
        (All-take (λ c. (c == dash) ≡ false) 6 hex' h')
        (sym (joined front (take 6 hex)) ∙ e ∙ joined front' (take 6 hex')) in
    split_base b b' i i' fronts.0

-- The name tells the host, which may have dashes of its own, the process and the place.
worker_name_inj :
    (hostname hostname' : Text) (pid pid' i i' : ℕ) (hex hex' : Text)
    → HasNoDash hex
    → HasNoDash hex'
    → worker_name (base_of hostname pid) i hex ≡ worker_name (base_of hostname' pid') i' hex'
    → (hostname ≡ hostname') × (pid ≡ pid') × (i ≡ i')
worker_name_inj hostname hostname' pid pid' i i' hex hex' h h' e =
    let (bases, places) =
      split_name (base_of hostname pid) (base_of hostname' pid') i i' hex hex' h h' e in
    let (hosts, pids) = split_base hostname hostname' pid pid' bases in (hosts, pids, places)

names_from-at :
    (base : Text) (hexes : ℕ → Text) (left i k : ℕ) {name : Text}
    → get_elem? (names_from base hexes left i) k ≡ some name
    → name ≡ worker_name base (i + k) (hexes (i + k))
unfolding names_from
names_from-at base hexes zero i k e = absurd (cc)
names_from-at base hexes (suc left) i zero {name} e =
    let first_name : name ≡ worker_name base i (hexes i) = cc in
    let place : i ≡ i + 0 = omega arith in first_name ∙ ap (λ n. worker_name base n (hexes n)) place
names_from-at base hexes (suc left) i (suc k) e =
    let place : i + 1 + k ≡ i + suc k = omega arith in
    names_from-at base hexes left (i + 1) k e ∙ ap (λ n. worker_name base n (hexes n)) place

-- Two workers with one id are one: of the same host, of the same process, and in the same place of its
-- pool. The hexadecimal form of a UUID has no dash; the name of a host may have.
pub worker_names_apart :
    (hostname hostname' : Text) (pid pid' : ℕ) (hexes hexes' : ℕ → Text)
    (settings settings' : Settings) (k k' : ℕ) {name : Text}
    → ((i : ℕ) → HasNoDash (hexes i))
    → ((i : ℕ) → HasNoDash (hexes' i))
    → get_elem? (worker_names hostname pid hexes settings) k ≡ some name
    → get_elem? (worker_names hostname' pid' hexes' settings') k' ≡ some name
    → (hostname ≡ hostname') × (pid ≡ pid') × (k ≡ k')
unfolding worker_names
worker_names_apart hostname hostname' pid pid' hexes hexes' settings settings' k k' h h' e e' =
    let at = names_from-at (base_of hostname pid) hexes settings.worker_count 0 k e in
    let at' = names_from-at (base_of hostname' pid') hexes' settings'.worker_count 0 k' e' in
    let (hosts, pids, places) =
      worker_name_inj hostname hostname' pid pid' (0 + k) (0 + k') (hexes (0 + k)) (hexes' (0 + k'))
        (h (0 + k)) (h' (0 + k')) (sym at ∙ at') in
    (hosts, pids, omega arith)
