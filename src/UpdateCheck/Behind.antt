-- ===== src/UpdateCheck/Behind.antt =====
-- internal/updatecheck/updatecheck.go: what `Check` reports is behind, and no update moves back.
use w17ctl.Base.{
  Str, str_eq, Ordering, Bool, true, false, not, ◌||◌, ◌&&◌, Option, none, some, List, [], ◌∷◌,
  ◌++◌, ◌≡◌, refl, ap, subst, ◌∙◌, ◌≢◌, ◌⊎◌, inl, inr, if◌then◌else◌, arith, In, In-append,
  In-append_left, In-append_right, sym, ◌↔◌,
}
use w17ctl.Base.Order.{IsOrder, Chain, flip}
use w17ctl.Versions.{compare_versions}
use w17ctl.UpdateCheck.{
  Semver, Kind, client, sdk, plugin, Item, Report, Plugin, Sources, is_gt, is_lt, nothing, only,
  item, client_answer, check_client, sdk_answer, sdk_required, sdk_target, sdk_item, check_sdk,
  plugin_items, check_plugins, check, and_then,
}

module _ (v : Semver) (o : IsOrder v.compare) (s : Sources) where
  -- What an item says: its latest version is above the current one, a required one reaches the floor.
  abbrev pub IsBehind : Kind → Item → Type 0
  IsBehind client i = (v.compare i.latest i.current ≡ Ordering.gt) × (i.required ≡ false)
  IsBehind plugin i = (compare_versions i.current i.latest ≡ Ordering.lt) × (i.required ≡ false)
  IsBehind sdk i =
      (v.compare i.latest i.current ≡ Ordering.gt)
      × (v.is_valid s.sdk_current ≡ true)
      × (i.current ≡ s.sdk_current)
      × (i.required ≡ (v.is_valid s.sdk_floor && is_lt (v.compare s.sdk_current s.sdk_floor)))
      × (i.required ≡ true → v.compare i.latest s.sdk_floor ≢ Ordering.lt)

  abbrev IsAllBehind : List Item → Type 0
  IsAllBehind l = (i : Item) → In i l → IsBehind i.kind i

  client_answer-IsAllBehind :
      (current : Str) (a : Option (Str ⊎ Str)) → IsAllBehind (client_answer v current a).items
  unfolding client_answer
  client_answer-IsAllBehind current none = λ i m. absurd m
  client_answer-IsAllBehind current (some (inl e)) = λ i m. absurd m
  client_answer-IsAllBehind current (some (inr latest)) =
      split (v.is_valid latest) (v.compare latest current) refl
    where
      split :
          (b : Bool) (r : Ordering)
          → v.compare latest current ≡ r
          → IsAllBehind
              (if b && is_gt r then only (item v client current latest false) else nothing).items
      split true Ordering.gt e i (inl q) = rw q (e, refl)
      split true Ordering.gt e i (inr m) = absurd m
      split true Ordering.eq e i m = absurd m
      split true Ordering.lt e i m = absurd m
      split false r e i m = absurd m

  above_floor :
      (x : Str)
      → v.compare s.sdk_current s.sdk_floor ≡ Ordering.lt
      → v.compare x s.sdk_floor ≢ Ordering.lt
      → v.compare x s.sdk_current ≡ Ordering.gt
  above_floor x h n = by_case (v.compare x s.sdk_floor) refl (o.flipped x s.sdk_floor) (
      subst (λ r. Chain r (v.compare s.sdk_floor x) (v.compare s.sdk_current x)) h
        (o.chain s.sdk_current s.sdk_floor x))
    where
      turned : v.compare s.sdk_current x ≡ Ordering.lt → v.compare x s.sdk_current ≡ Ordering.gt
      turned e = o.flipped s.sdk_current x ∙ ap flip e

      by_case :
          (r : Ordering)
          → v.compare x s.sdk_floor ≡ r
          → v.compare s.sdk_floor x ≡ flip (v.compare x s.sdk_floor)
          → Chain Ordering.lt (v.compare s.sdk_floor x) (v.compare s.sdk_current x)
          → v.compare x s.sdk_current ≡ Ordering.gt
      by_case Ordering.lt e f c = absurd (n e)
      by_case Ordering.eq e f c =
          turned (subst (λ r. Chain Ordering.lt r (v.compare s.sdk_current x)) (f ∙ ap flip e) c)
      by_case Ordering.gt e f c =
          turned (subst (λ r. Chain Ordering.lt r (v.compare s.sdk_current x)) (f ∙ ap flip e) c)

  required_below : sdk_required v s ≡ true → v.compare s.sdk_current s.sdk_floor ≡ Ordering.lt
  unfolding sdk_required
  required_below h = split (v.is_valid s.sdk_floor) (v.compare s.sdk_current s.sdk_floor) h
    where
      split : (b : Bool) (r : Ordering) → (b && is_lt r) ≡ true → r ≡ Ordering.lt
      split true Ordering.lt e = refl
      split true Ordering.eq e = absurd (ground arith)
      split true Ordering.gt e = absurd (ground arith)
      split false r e = absurd (ground arith)

  target_reaches :
      (latest : Str)
      → sdk_required v s ≡ true
      → v.compare (sdk_target v s latest) s.sdk_floor ≢ Ordering.lt
  unfolding sdk_target
  target_reaches latest h =
      split (sdk_required v s) (str_eq latest []) (v.compare latest s.sdk_floor) h refl
    where
      split :
          (a b : Bool) (r : Ordering)
          → a ≡ true
          → v.compare latest s.sdk_floor ≡ r
          → v.compare (if a && (b || is_lt r) then s.sdk_floor else latest) s.sdk_floor
            ≢ Ordering.lt
      split false b r x e z = ground arith
      split true true r x e z = ground (arith, o.same s.sdk_floor)
      split true false Ordering.lt x e z = ground (arith, o.same s.sdk_floor)
      split true false Ordering.eq x e z = ground arith
      split true false Ordering.gt x e z = ground arith

  sdk_item-IsAllBehind :
      v.is_valid s.sdk_current ≡ true
      → (latest : Str) → IsAllBehind (sdk_item v s (sdk_target v s latest)).items
  unfolding sdk_item sdk_required
  sdk_item-IsAllBehind valid latest =
      split (sdk_required v s) (str_eq t []) (v.compare t s.sdk_current) refl refl
    where
      t : Str
      t = sdk_target v s latest

      split :
          (a b : Bool) (r : Ordering)
          → sdk_required v s ≡ a
          → v.compare t s.sdk_current ≡ r
          → IsAllBehind
              (if a || (not b && is_gt r)
                then only (item v sdk s.sdk_current t (sdk_required v s))
                else nothing).items
      split true b r x e i (inl q) = rw q (
        above_floor t (required_below x) (target_reaches latest x),
        valid,
        refl,
        refl,
        λ z. target_reaches latest x,
      )
      split true b r x e i (inr m) = absurd m
      split false false Ordering.gt x e i (inl q) =
          rw q (e, valid, refl, refl, λ z. absurd (ground arith))
      split false false Ordering.gt x e i (inr m) = absurd m
      split false false Ordering.eq x e i m = absurd m
      split false false Ordering.lt x e i m = absurd m
      split false true r x e i m = absurd m

  plugin_items-IsAllBehind : (ps : List Plugin) → IsAllBehind (plugin_items v ps)
  unfolding plugin_items
  plugin_items-IsAllBehind [] i m = absurd m
  plugin_items-IsAllBehind (p ∷ ps) i m =
      split (str_eq p.installed []) (str_eq p.served []) (compare_versions p.installed p.served)
        refl m (plugin_items-IsAllBehind ps i)
    where
      split :
          (a b : Bool) (r : Ordering)
          → compare_versions p.installed p.served ≡ r
          → In i (
              if a || b || not (is_lt r)
              then plugin_items v ps
              else record {
                kind = plugin;
                name = p.name;
                current = p.installed;
                latest = p.served;
                required = false;
              }
                ∷ plugin_items v ps)
          → (In i (plugin_items v ps) → IsBehind i.kind i)
          → IsBehind i.kind i
      split true b r e k later = later k
      split false true r e k later = later k
      split false false Ordering.eq e k later = later k
      split false false Ordering.gt e k later = later k
      split false false Ordering.lt e (inr k) later = later k
      split false false Ordering.lt e (inl q) later = rw q (e, refl)

  check_client-IsAllBehind : IsAllBehind (check_client v s).items
  unfolding check_client
  check_client-IsAllBehind =
      split (v.is_valid s.client_current)
        (client_answer-IsAllBehind s.client_current s.client_latest)
    where
      split :
          (b : Bool)
          → IsAllBehind (client_answer v s.client_current s.client_latest).items
          → IsAllBehind
              (if b then client_answer v s.client_current s.client_latest else nothing).items
      split true h = h
      split false h = λ i m. absurd m

  no_failed_item : (a : Option (Str ⊎ Str)) (i : Item) → ¬ (In i (sdk_answer v a).1.items)
  unfolding sdk_answer
  no_failed_item none i m = m
  no_failed_item (some (inl e)) i m = m
  no_failed_item (some (inr l)) i m = m

  check_sdk-IsAllBehind : IsAllBehind (check_sdk v s).items
  unfolding check_sdk
  check_sdk-IsAllBehind =
      split (v.is_valid s.sdk_current) (λ e. sdk_item-IsAllBehind e (sdk_answer v s.sdk_latest).0)
    where
      found_by : Report
      found_by = sdk_item v s (sdk_target v s (sdk_answer v s.sdk_latest).0)

      split :
          (b : Bool)
          → (b ≡ true → IsAllBehind found_by.items)
          → IsAllBehind
              (if b then and_then (sdk_answer v s.sdk_latest).1 found_by else nothing).items
      split false h = λ i m. absurd m
      split true h = λ i m.
          elim (In-append i (sdk_answer v s.sdk_latest).1.items found_by.items m) [
            | inl j ↦ absurd (no_failed_item s.sdk_latest i j)
            | inr j ↦ h refl i j
          ]

  check_plugins-IsAllBehind :
      (a : Option (List Plugin × Bool)) → IsAllBehind (check_plugins v a).items
  unfolding check_plugins
  check_plugins-IsAllBehind none = λ i m. absurd m
  check_plugins-IsAllBehind (some (ps, failed)) = plugin_items-IsAllBehind ps

  check-IsAllBehind : IsAllBehind (check v s).items
  unfolding check
  check-IsAllBehind i m =
      elim (In-append i (check_client v s).items
        ((check_sdk v s).items ++ (check_plugins v s.plugins).items) m) [
          | inl j ↦ check_client-IsAllBehind i j
          | inr k ↦ elim (In-append i (check_sdk v s).items (check_plugins v s.plugins).items k) [
            | inl j ↦ check_sdk-IsAllBehind i j
            | inr j ↦ check_plugins-IsAllBehind s.plugins i j
          ]
        ]

  -- the project's own version is valid, and so is a floor above it
  abbrev pub IsBelowFloor : Type 0
  IsBelowFloor =
      (v.is_valid s.sdk_current ≡ true)
      × (v.is_valid s.sdk_floor ≡ true)
      × (v.compare s.sdk_current s.sdk_floor ≡ Ordering.lt)

  abbrev pub HasRequired : List Item → Type 0
  HasRequired l = (i : Item) × In i l × (i.required ≡ true)

  below_of : v.is_valid s.sdk_current ≡ true → sdk_required v s ≡ true → IsBelowFloor
  unfolding sdk_required
  below_of valid h = (valid, split (v.is_valid s.sdk_floor) h, required_below h)
    where
      split : (b : Bool) → (b && is_lt (v.compare s.sdk_current s.sdk_floor)) ≡ true → b ≡ true
      split true e = refl
      split false e = absurd (ground arith)

  of_required : (i : Item) → IsBehind i.kind i → i.required ≡ true → IsBelowFloor
  unfolding sdk_required
  of_required i b r = by_kind i.kind b
    where
      by_kind : (k : Kind) → IsBehind k i → IsBelowFloor
      by_kind client (g, n) = absurd (ground arith)
      by_kind plugin (g, n) = absurd (ground arith)
      by_kind sdk (g, valid, c, q, f) = below_of valid (sym q ∙ r)

  required_of : IsBelowFloor → sdk_required v s ≡ true
  unfolding sdk_required
  required_of (x, y, z) = rw (y, z) refl

  check_sdk-HasRequired : IsBelowFloor → HasRequired (check_sdk v s).items
  unfolding check_sdk sdk_item
  check_sdk-HasRequired below =
      (it, split (v.is_valid s.sdk_current) below.0 (sdk_required v s) h _, h)
    where
      h : sdk_required v s ≡ true
      h = required_of below

      t : Str
      t = sdk_target v s (sdk_answer v s.sdk_latest).0

      it : Item
      it = item v sdk s.sdk_current t (sdk_required v s)

      split :
          (b : Bool)
          → b ≡ true
          → (r : Bool) → r ≡ true
          → (c : Bool)
          → In it
              (if b
                then and_then (sdk_answer v s.sdk_latest).1 (if r || c then only it else nothing)
                else nothing).items
      split false e r f c = absurd cc
      split true e false f c = absurd cc
      split true e true f c =
          In-append_right it (sdk_answer v s.sdk_latest).1.items (it ∷ []) (inl refl)

  check-HasRequired : HasRequired (check_sdk v s).items → HasRequired (check v s).items
  unfolding check
  check-HasRequired (i, m, r) = (
    i,
    In-append_right i (check_client v s).items _
        (In-append_left i (check_sdk v s).items (check_plugins v s.plugins).items m),
    r,
  )

  -- Where the comparison of semantic versions is an order: everything that a check reports is behind by
  -- the comparison that its kind goes by, so that no update moves a version back; only an SDK update is
  -- ever required, and then the version to move to reaches the floor; and a check reports a required
  -- update exactly when the version that the project pins and the floor are both valid and the pinned
  -- one is below the floor.
  pub check-IsBehind :
      ((i : Item) → In i (check v s).items → IsBehind i.kind i)
      × (HasRequired (check v s).items ↔ IsBelowFloor)
  check-IsBehind = (
    check-IsAllBehind,
    (
      λ h. let (i, m, r) = h in of_required i (check-IsAllBehind i m) r,
      λ below. check-HasRequired (check_sdk-HasRequired below),
    ),
  )
