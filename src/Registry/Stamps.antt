-- ===== src/Registry/Stamps.antt =====
-- internal/enrich/registry/enricher.go: the properties that applyMetadata sets.
use astinus.Base.{
  ◌≡◌, refl, ◌∙◌, ap, ◌⊎◌, inl, inr, true, false, List, [], ◌∷◌, some, Text, codes, text_eq, nat_eq,
  ◌==◌, ==_iff, ==_refl, Bool-cases, Option-cases, All,
}
use astinus.Base.Dict.{Dict, lookup, insert, lookup-insert}
use astinus.Registry.Resolve.{Metadata}
use astinus.Registry.Apply.{
  source_for_type, set_if_absent, registry_source, registry_fetched_at, stamp_registry,
}
use astinus.Registry.Growing.{merge-keeps, merge-IsSettled, merge-same}

insert-same : (k v : Text) (m : Dict Text Text) → lookup k m ≡ some v → insert k v m ≡ m
unfolding lookup insert
insert-same k v [] h = absurd (cc h)
insert-same k v ((j, w) ∷ m) h = elim (Bool-cases (j == k)) [
  | inl same ↦ rw (same) (cc (rw same at h, (==_iff j k).0 same))
  | inr other ↦ rw (other, insert-same k v m (rw other at h)) refl
]

abbrev pub Entry : Type 0
Entry = Text × Text

abbrev set_entry : Dict Text Text → Entry → Dict Text Text
set_entry m (k, v) = set_if_absent k v m

pub set_each : Dict Text Text → List Entry → Dict Text Text
set_each m [] = m
set_each m (b ∷ bs) = set_each (set_entry m b) bs

-- The key has this value.
abbrev pub Holds : Dict Text Text → Entry → Type 0
Holds m (k, v) = lookup k m ≡ some v

-- Nothing to set, or the key has a value.
abbrev pub HasEntry : Dict Text Text → Entry → Type 0
HasEntry m (k, v) = ((v == []) ≡ true) ⊎ ((w : Text) × Holds m (k, w))

set_entry-Holds : (m : Dict Text Text) (b c : Entry) → Holds m c → Holds (set_entry m b) c
unfolding set_if_absent
set_entry-Holds m (k, v) (j, w) h = elim (Bool-cases (v == [])) [
  | inl empty ↦ rw (empty) h
  | inr full ↦ elim (Option-cases (lookup k m)) [
    | inr (u, there) ↦ rw (full, there) h
    | inl missing ↦ elim (Bool-cases (k == j)) [
      | inl same ↦ absurd (cc (missing, h, (==_iff k j).0 same))
      | inr other ↦ rw (full, missing, lookup-insert k j v m, other) h
    ]
  ]
]

set_entry-HasEntry : (m : Dict Text Text) (b : Entry) → HasEntry (set_entry m b) b
unfolding set_if_absent
set_entry-HasEntry m (k, v) = elim (Bool-cases (v == [])) [
  | inl empty ↦ inl empty
  | inr full ↦ elim (Option-cases (lookup k m)) [
    | inr (u, there) ↦ inr (u, rw (full, there) there)
    | inl missing ↦ inr (v, rw (full, missing, lookup-insert k k v m, ==_refl k) refl)
  ]
]

HasEntry-keeps : (m : Dict Text Text) (b c : Entry) → HasEntry m c → HasEntry (set_entry m b) c
HasEntry-keeps m b (k, v) (inl empty) = inl empty
HasEntry-keeps m b (k, v) (inr (w, there)) = inr (w, set_entry-Holds m b (k, w) there)

set_entry-same : (m : Dict Text Text) (b : Entry) → HasEntry m b → set_entry m b ≡ m
unfolding set_if_absent
set_entry-same m (k, v) (inl empty) = rw (empty) refl
set_entry-same m (k, v) (inr (w, there)) = elim (Bool-cases (v == [])) [
  | inl empty ↦ rw (empty) refl
  | inr full ↦ rw (full, there) refl
]

pub set_each-Holds :
    (m : Dict Text Text) (bs : List Entry) (c : Entry) → Holds m c → Holds (set_each m bs) c
unfolding set_each
set_each-Holds = merge-keeps set_entry set_each (λ m. refl) (λ m b bs. refl) Holds set_entry-Holds

set_each_idem : (m : Dict Text Text) (bs : List Entry) → set_each (set_each m bs) bs ≡ set_each m bs
unfolding set_each
set_each_idem m bs =
    merge-same set_entry set_each (λ n. refl) (λ n b cs. refl) HasEntry HasEntry-keeps
      set_entry-same (set_each m bs) bs
      (merge-IsSettled set_entry set_each (λ n. refl) (λ n b cs. refl) HasEntry HasEntry-keeps
        set_entry-HasEntry m bs)

abbrev pub links : Metadata → List Entry
links meta =
    (codes "astinus:registry:homepage", meta.homepage)
    ∷ (codes "astinus:registry:repository", meta.repository)
    ∷ (codes "astinus:registry:bug-tracker", meta.bug_tracker)
    ∷ (codes "astinus:registry:documentation", meta.documentation)
    ∷ []

module _ (now purl : Text) (meta : Metadata) where
  abbrev stamped : Dict Text Text → Dict Text Text
  stamped props =
      insert registry_fetched_at now (insert registry_source (source_for_type purl) props)

  pub stamp_registry-Holds_source :
      (props : Dict Text Text)
      → Holds (stamp_registry now purl meta props) (registry_source, source_for_type purl)
  unfolding stamp_registry set_each
  stamp_registry-Holds_source props =
      set_each-Holds (stamped props) (links meta) (registry_source, source_for_type purl)
        (lookup-insert registry_fetched_at registry_source now _
          ∙ lookup-insert registry_source registry_source (source_for_type purl) props)

  pub stamp_registry-Holds_time :
      (props : Dict Text Text)
      → Holds (stamp_registry now purl meta props) (registry_fetched_at, now)
  unfolding stamp_registry set_each
  stamp_registry-Holds_time props =
      set_each-Holds (stamped props) (links meta) (registry_fetched_at, now)
        (lookup-insert registry_fetched_at registry_fetched_at now _)

  pub stamp_registry_idem :
      (props : Dict Text Text)
      → stamp_registry now purl meta (stamp_registry now purl meta props)
        ≡ stamp_registry now purl meta props
  unfolding stamp_registry set_each
  stamp_registry_idem props =
      let done = stamp_registry now purl meta props in
      ap (λ m. set_each (insert registry_fetched_at now m) (links meta))
        (insert-same registry_source (source_for_type purl) done
          (stamp_registry-Holds_source props))
      ∙ ap (λ m. set_each m (links meta))
          (insert-same registry_fetched_at now done (stamp_registry-Holds_time props))
      ∙ set_each_idem (stamped props) (links meta)

-- The stamps are set, every other key keeps the value that it has, and each link has a value if one
-- was given.
abbrev pub IsStamped : Text → Text → Metadata → Dict Text Text → Dict Text Text → Type 0
IsStamped now purl meta before after =
    Holds after (registry_source, source_for_type purl)
    × Holds after (registry_fetched_at, now)
    × ((k v : Text)
        → (registry_source == k) ≡ false
        → (registry_fetched_at == k) ≡ false
        → Holds before (k, v)
        → Holds after (k, v))
    × All (HasEntry after) (links meta)

pub stamp_registry-IsStamped :
    (now purl : Text) (meta : Metadata) (props : Dict Text Text)
    → IsStamped now purl meta props (stamp_registry now purl meta props)
unfolding stamp_registry set_each
stamp_registry-IsStamped now purl meta props = (
  stamp_registry-Holds_source now purl meta props,
  stamp_registry-Holds_time now purl meta props,
  λ k v source time h.
      set_each-Holds (stamped now purl meta props) (links meta) (k, v)
        (lookup-insert registry_fetched_at k now _
          ∙ rw (time)
              (lookup-insert registry_source k (source_for_type purl) props ∙ rw (source) h)),
  merge-IsSettled set_entry set_each (λ m. refl) (λ m b bs. refl) HasEntry HasEntry-keeps
      set_entry-HasEntry (stamped now purl meta props) (links meta),
)
