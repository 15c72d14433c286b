-- ===== src/Ids/Context/Kinds.antt =====
-- ids.go: what the functions on contexts tell of a context's URI and its items.
use go_librespot_termux.Prelude.{
  ◌<◌, ◌≡◌, ◌≢◌, ◌↔◌, ◌⊎◌, refl, ap, sym, ◌∙◌, false, not, ◌&&◌, ◌||◌, Bool-cases, if_false,
  le→ltb-false, le→leb, lt→ltb, append-nil, text_eq→eq, Option-cases, inl, inr, List, [], ◌∷◌, ◌++◌,
  Option, none, some, arith, ltb, leb, ◌==◌, if◌then◌else◌, length, Text, codes, text_eq,
  text_eq_refl,
}
use go_librespot_termux.Ids.{type_track, type_episode, type_unknown, match_uri}
use go_librespot_termux.Ids.Context.{
  join_first, split_colon, part, kind_of, context_uri_type, first_type, all_items,
  infer_type_from_context,
}

-- No colon in the text.
abbrev pub IsSegment : Text → Type 0
IsSegment [] = Unit {0}
IsSegment (c ∷ s) = ((c == b':') ≡ false) × IsSegment s

split_colon-append : (t s : Text) → IsSegment t → split_colon (t ++ (b':' ∷ s)) ≡ t ∷ split_colon s
unfolding split_colon
split_colon-append [] s h = refl
split_colon-append (c ∷ t) s h = rw (h.0, split_colon-append t s h.1) refl

split_colon-segment : (t : Text) → IsSegment t → split_colon t ≡ t ∷ []
unfolding split_colon
split_colon-segment [] h = refl
split_colon-segment (c ∷ t) h = rw (h.0, split_colon-segment t h.1) refl

split_colon-length : (s : Text) → 0 < length (split_colon s)
unfolding split_colon
split_colon-length [] = omega arith
split_colon-length (c ∷ s) = elim (Bool-cases (c == b':')) [
  | inl e ↦ rw e (omega arith)
  | inr e ↦ rw e (go (split_colon s))
]
  where
    go : (ps : List Text) → 0 < length (join_first c ps)
    go [] = omega arith
    go (p ∷ ps) = omega arith

-- The kind of a URI of at least three parts.
kind_of-parts :
    (t p : Text) (ps : List Text)
    → kind_of (codes "spotify" ∷ t ∷ p ∷ ps) ≡ (
        if text_eq t (codes "user") && leb 4 (length (codes "spotify" ∷ t ∷ p ∷ ps))
        then part 1 (p ∷ ps)
        else t)
unfolding kind_of
kind_of-parts t p ps =
    if_false
      (ltb (length (codes "spotify" ∷ t ∷ p ∷ ps)) 3
        || not (text_eq (codes "spotify") (codes "spotify")))
      _ _
      (rw (
        le→ltb-false (length (codes "spotify" ∷ t ∷ p ∷ ps)) 3 (omega arith),
        text_eq_refl (codes "spotify"),
      ))

kind_of-plain :
    (t : Text) (ps : List Text)
    → 0 < length ps
    → text_eq t (codes "user") ≡ false
    → kind_of (codes "spotify" ∷ t ∷ ps) ≡ t
kind_of-plain t [] h n = absurd (omega arith)
kind_of-plain t (p ∷ ps) h n = kind_of-parts t p ps ∙ rw n

spotify-IsSegment : IsSegment (codes "spotify")
spotify-IsSegment = (refl, (refl, (refl, (refl, (refl, (refl, (refl, tt)))))))

user-IsSegment : IsSegment (codes "user")
user-IsSegment = (refl, (refl, (refl, (refl, tt))))

-- The type of a context's URI is the part after `spotify`, unless that is `user`.
context_uri_type-plain :
    (t s : Text)
    → IsSegment t
    → text_eq t (codes "user") ≡ false
    → context_uri_type (codes "spotify:" ++ t ++ (b':' ∷ s)) ≡ t
unfolding context_uri_type
context_uri_type-plain t s h n =
    ap kind_of (
      split_colon-append (codes "spotify") (t ++ (b':' ∷ s)) spotify-IsSegment
      ∙ ap (◌∷◌ (codes "spotify")) (split_colon-append t s h))
    ∙ kind_of-plain t (split_colon s) (split_colon-length s) n

-- What may follow a part.
abbrev pub tail : Option Text → Text
tail none = []
tail (some r) = b':' ∷ r

split_colon-tail :
    (t : Text) (o : Option Text)
    → IsSegment t
    → (ps : List Text) × (split_colon (t ++ tail o) ≡ t ∷ ps)
split_colon-tail t none h = ([], ap split_colon (append-nil t) ∙ split_colon-segment t h)
split_colon-tail t (some r) h = (split_colon r, split_colon-append t r h)

-- The type of a user's context is the part after the user's name, whether it is the last or not.
context_uri_type-user :
    (name kind : Text) (o : Option Text)
    → IsSegment name
    → IsSegment kind
    → context_uri_type (codes "spotify:user:" ++ name ++ (b':' ∷ (kind ++ tail o))) ≡ kind
unfolding context_uri_type part
context_uri_type-user name kind o hn hk =
    let (ps, last) = split_colon-tail kind o hk in
    ap kind_of (
      split_colon-append (codes "spotify") (codes "user:" ++ name ++ (b':' ∷ (kind ++ tail o)))
        spotify-IsSegment
      ∙ ap (◌∷◌ (codes "spotify")) (
          split_colon-append (codes "user") (name ++ (b':' ∷ (kind ++ tail o))) user-IsSegment
          ∙ ap (◌∷◌ (codes "user"))
              (split_colon-append name (kind ++ tail o) hn ∙ ap (◌∷◌ name) last)))
    ∙ (kind_of-parts (codes "user") name (kind ∷ ps)
        ∙ rw (
          text_eq_refl (codes "user"),
          le→leb 4 (length (codes "spotify" ∷ codes "user" ∷ name ∷ kind ∷ ps)) (omega arith),
        ))

-- A type that is found among the items is that of tracks or of episodes.
first_type-known :
    (us : List Text) (t : Text) → first_type us ≡ some t → (t ≡ type_track) ⊎ (t ≡ type_episode)
unfolding first_type
first_type-known [] t h = absurd (cc)
first_type-known (u ∷ us) t h = elim (Option-cases (match_uri u)) [
  | inl e ↦ first_type-known us t (rw (e, first_type) at h)
  | inr ((s, i), e) ↦ elim (Bool-cases (text_eq s type_track)) [
    | inl y ↦
        let same : s ≡ t = cc (rw (e, y, first_type) at h) in
        inl (sym same ∙ text_eq→eq s type_track y)
    | inr y ↦ elim (Bool-cases (text_eq s type_episode)) [
      | inl z ↦
          let same : s ≡ t = cc (rw (e, y, z, first_type) at h) in
          inr (sym same ∙ text_eq→eq s type_episode z)
      | inr z ↦ first_type-known us t (rw (e, y, z, first_type) at h)
    ]
  ]
]

known-eq-unknown : (t : Text) → (t ≡ type_track) ⊎ (t ≡ type_episode) → t ≢ type_unknown
known-eq-unknown t (inl e) u = cc
known-eq-unknown t (inr e) u = cc

-- A context that is a bare list of items is of unknown type only if it has none.
infer_type_from_context-unknown :
    (pages : List (List Text))
    → (infer_type_from_context [] pages ≡ type_unknown) ↔ (all_items pages ≡ [])
unfolding infer_type_from_context first_type
infer_type_from_context-unknown pages = go (all_items pages) (first_type (all_items pages)) refl
  where
    go :
        (us : List Text) (o : Option Text)
        → first_type us ≡ o
        → (elim o [ some t ↦ t | none ↦ if ltb 0 (length us) then type_track else type_unknown ]
            ≡ type_unknown)
          ↔ (us ≡ [])
    go [] (some t) e = absurd (cc)
    go (u ∷ us) (some t) e =
        (λ h. absurd (known-eq-unknown t (first_type-known (u ∷ us) t e) h), λ h. absurd (cc))
    go [] none e = (λ h. refl, λ h. refl)
    go (u ∷ us) none e =
        (λ h. absurd (cc (rw (lt→ltb 0 (length (u ∷ us)) (omega arith)) at h)), λ h. absurd (cc))
