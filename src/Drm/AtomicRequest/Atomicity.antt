-- ===== src/Drm/AtomicRequest/Atomicity.antt =====
-- What of a request reaches the kernel (src/drm.cpp, AtomicRequest).
use twincam.Base.{
  ℕ, ◌≡◌, refl, ◌⊎◌, inl, inr, true, false, Option, some, List, [], ◌∷◌, ◌++◌, append_assoc,
  append-nil, neg, is_neg, einval, arith, Bool-cases, Option-cases, String, ◌∙◌, ap,
}
use twincam.Drm.Types.{Object, Property, Device}
use twincam.Drm.Lookup.{property}
use twincam.Drm.AtomicRequest.{
  PropertySet, DrmFlags, AtomicApi, AtomicRequest, new_request, add_property, set_of, commit,
  drm_flags, Change, add_changes,
}

-- The entries that changes stand for, where every object has its property.
abbrev pub Resolves : Device → List Change → List PropertySet → Type 0
Resolves d [] ps = ps ≡ []
Resolves d (c ∷ cs) ps =
    (p : Property) × (rest : List PropertySet) × (property d c.object c.name ≡ some p)
    × (ps ≡ set_of c.object p c.value ∷ rest)
    × Resolves d cs rest

-- An invalid request stays as it is.
add_property_invalid :
    (api : AtomicApi) (d : Device) (o : Object) (name : String) (value : ℕ) (r : AtomicRequest)
    → r.valid ≡ false
    → (add_property api d o name value r).1 ≡ r
unfolding add_property
add_property_invalid api d o name value r e = ground arith

add_changes_invalid :
    (api : AtomicApi) (d : Device) (cs : List Change) (r : AtomicRequest)
    → r.valid ≡ false
    → add_changes api d cs r ≡ r
unfolding add_changes
add_changes_invalid api d [] r e = refl
add_changes_invalid api d (c ∷ cs) r e =
    simp (add_property_invalid api d c.object c.name c.value r e) (add_changes_invalid api d cs r e)

-- A call on a valid request appends one entry, or makes the request invalid.
add_property-cases :
    (api : AtomicApi) (d : Device) (o : Object) (name : String) (value : ℕ) (r : AtomicRequest)
    (old : List PropertySet)
    → r.valid ≡ true
    → r.request ≡ some old
    → let r' = (add_property api d o name value r).1 in
      (r'.valid ≡ false)
      ⊎ ((p : Property) × (property d o name ≡ some p)
          × (r'.valid ≡ true)
          × (r'.request ≡ some (old ++ set_of o p value ∷ [])))
unfolding add_property
add_property-cases api d o name value r old v e = elim (Option-cases (property d o name)) [
  | inl missing ↦ inl (ground arith)
  | inr (p, found) ↦ elim (Bool-cases (is_neg (api.add_property r.request (set_of o p value)))) [
    | inl bad ↦ inl (ground arith)
    | inr good ↦ inr (p, found, ground arith, ground arith)
  ]
]

-- Added entries stand behind the old ones, in the order of the calls, unless the request is invalid.
abbrev pub Whole : Device → List Change → List PropertySet → AtomicRequest → Type 0
Whole d cs old r =
    (r.valid ≡ false)
    ⊎ ((ps : List PropertySet) × Resolves d cs ps
        × (r.valid ≡ true)
        × (r.request ≡ some (old ++ ps)))

add_changes-Whole :
    (api : AtomicApi) (d : Device) (cs : List Change) (old : List PropertySet) (r : AtomicRequest)
    → r.valid ≡ true
    → r.request ≡ some old
    → Whole d cs old (add_changes api d cs r)
unfolding add_changes
add_changes-Whole api d [] old r v e = inr ([], refl, v, rw append-nil e)
add_changes-Whole api d (c ∷ cs) old r v e =
    let r' = (add_property api d c.object c.name c.value r).1 in
    elim (add_property-cases api d c.object c.name c.value r old v e) [
      | inl bad ↦
          inl (ap (λ (q : AtomicRequest). q.valid) (add_changes_invalid api d cs r' bad) ∙ bad)
      | inr (p, found, v', e') ↦
          elim (add_changes-Whole api d cs (old ++ set_of c.object p c.value ∷ []) r' v' e') [
            | inl bad ↦ inl bad
            | inr (ps, res, v'', e'') ↦ inr (
              set_of c.object p c.value ∷ ps,
              (p, ps, found, refl, res),
              v'',
              e'' ∙ rw append_assoc,
            )
          ]
    ]

-- A new request that is given a list of changes and committed: either every object has its property
-- and the kernel is asked once for exactly these changes in the order of the calls, with the flags
-- that the bit set stands for; or the commit returns -EINVAL and the kernel is not asked.
pub commit-add_changes :
    (api : AtomicApi) (d : Device) (cs : List Change) (flags : ℕ)
    → let r = add_changes api d cs (new_request api) in
      (commit api flags r ≡ (neg einval, false))
      ⊎ ((ps : List PropertySet) × Resolves d cs ps
          × (commit api flags r ≡ (api.commit (some ps) (drm_flags flags), true)))
unfolding commit new_request
commit-add_changes api d cs flags = elim (Bool-cases api.alloc) [
  | inl e ↦ elim (add_changes-Whole api d cs [] (new_request api) (ground arith) (ground arith)) [
    | inl bad ↦ inl (ground arith)
    | inr (ps, res, v, e) ↦ inr (ps, res, ground arith)
  ]
  | inr e ↦ inl (ground (arith, add_changes_invalid api d cs (new_request api)))
]

-- Where libdrm refuses every commit, no commit succeeds.
pub commit-neg :
    (api : AtomicApi) (flags : ℕ) (r : AtomicRequest)
    → ((ps : Option (List PropertySet)) (f : DrmFlags) → is_neg (api.commit ps f) ≡ true)
    → is_neg (commit api flags r).0 ≡ true
unfolding commit
commit-neg api flags r refuses = ground (arith, refuses r.request (drm_flags flags))
