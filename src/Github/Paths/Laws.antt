-- ===== src/Github/Paths/Laws.antt =====
-- What the path gates refuse.
use llopster.Base.{
  or_true, filter-All, All-filter, Has-filter, any_of_Has, ◌≡◌, refl, ap, Bool, true, false, Option,
  some, List, [], ◌∷◌, ◌++◌, map, filter, arith, Text, lit, text_eq, member, strip, lower, split_on,
  All, Has, here, there, Without, split_on-join_with, member_of_Has, if◌then◌else◌, join_with,
  is_empty, All-split_on, append_assoc, append-nil, text_eq_refl,
}
use llopster.Github.Paths.{
  join_path, protected_dir_components, is_segment, path_segments, is_protected_parts,
  is_protected_path, template_below_root, is_chart_template,
}

-- A segment that holds no "/".
abbrev pub IsPlain : Text → Type 0
IsPlain = Without b'/'

abbrev IsSegment : Text → Type 0
IsSegment s = is_segment s ≡ true

-- Segments that are joined give a path that is not empty.
is_empty-join :
    (part : Text) (parts : List Text) → IsSegment part → is_empty (join_path (part ∷ parts)) ≡ false
unfolding join_with is_segment
is_empty-join [] parts h = cc
is_empty-join (c ∷ part) [] h = refl
is_empty-join (c ∷ part) (next ∷ parts) h = refl

judge_parts :
    (parts : List Text) (roots : Option (List Text))
    → All IsPlain parts
    → All IsSegment parts
    → (if is_empty (join_path parts)
        then true
        else is_protected_parts (split_on b'/' (join_path parts)) roots)
      ≡ (if is_empty parts then true else is_protected_parts parts roots)
judge_parts [] roots plain kept = unfold join_with in refl
judge_parts (part ∷ parts) roots plain kept =
    rw (is_empty-join part parts kept.0, split_on-join_with b'/' part parts plain) refl

-- The gate looks at the segments of the path and at nothing else.
is_protected_path-segments :
    (path : Text) (roots : Option (List Text))
    → is_protected_path path roots ≡ (
        if is_empty (path_segments path)
        then true
        else is_protected_parts (path_segments path) roots)
unfolding is_protected_path path_segments
is_protected_path-segments path roots =
    judge_parts _ roots (All-filter IsPlain is_segment _ (All-split_on b'/' (strip path)))
      (filter-All is_segment (split_on b'/' (strip path)))

-- The segments of a path that is written without spaces at its ends.
path_segments-join_path :
    (part : Text) (parts : List Text)
    → All IsPlain (part ∷ parts)
    → strip (join_path (part ∷ parts)) ≡ join_path (part ∷ parts)
    → path_segments (join_path (part ∷ parts)) ≡ filter is_segment (part ∷ parts)
unfolding path_segments
path_segments-join_path part parts plain bare = rw (bare, split_on-join_with b'/' part parts plain)

filter_idem : (p : Text → Bool) (xs : List Text) → All (λ x. p x ≡ true) xs → filter p xs ≡ xs
filter_idem p [] h = refl
filter_idem p (x ∷ xs) h = rw (h.0, filter_idem p xs h.1)

-- Two spellings of a path whose segments agree once empty and "." segments are dropped are
-- judged alike, whatever the chart roots.
is_protected_path-spelling :
    (a b : Text) (xs ys : List Text) (roots : Option (List Text))
    → All IsPlain (a ∷ xs)
    → All IsPlain (b ∷ ys)
    → strip (join_path (a ∷ xs)) ≡ join_path (a ∷ xs)
    → strip (join_path (b ∷ ys)) ≡ join_path (b ∷ ys)
    → filter is_segment (a ∷ xs) ≡ filter is_segment (b ∷ ys)
    → is_protected_path (join_path (a ∷ xs)) roots ≡ is_protected_path (join_path (b ∷ ys)) roots
is_protected_path-spelling a b xs ys roots pa pb sa sb e =
    rw (is_protected_path-segments (join_path (a ∷ xs)) roots) (
      rw (is_protected_path-segments (join_path (b ∷ ys)) roots)
        (rw (path_segments-join_path a xs pa sa) (rw (path_segments-join_path b ys pb sb) (rw e))))

Has-map {ℓ} : {A : Type ℓ} (f : A → A) {x : A} {xs : List A} → Has x xs → Has (f x) (map f xs)
Has-map f (here e) = here (ap f e)
Has-map f (there m) = there (Has-map f m)

-- the lower-case name of a guarded directory is no "" and no "."
is_segment_of_guarded :
    (s : Text) → member (lower s) protected_dir_components ≡ true → is_segment s ≡ true
unfolding is_segment member lower text_eq lit
is_segment_of_guarded [] h = absurd (cc)
is_segment_of_guarded (c ∷ []) h = ground arith
is_segment_of_guarded (c ∷ d ∷ s) h = ground arith

is_protected_parts_guarded :
    (parts : List Text) (roots : Option (List Text)) {s : Text}
    → Has s parts
    → Has (lower s) protected_dir_components
    → is_protected_parts parts roots ≡ true
unfolding is_protected_parts
is_protected_parts_guarded parts roots m g =
    rw (any_of_Has (λ c. member c (map lower parts)) g (member_of_Has (Has-map lower m)))
      (ground arith)

-- A path is protected if one of its segments, those of the path without the spaces about it, is
-- ".github", ".circleci" or ".buildkite" in any case of its ASCII letters, wherever the segment
-- stands and whatever the chart roots.
pub is_protected_path_guarded :
    (path : Text) (roots : Option (List Text)) {s : Text}
    → Has s (split_on b'/' (strip path))
    → Has (lower s) protected_dir_components
    → is_protected_path path roots ≡ true
unfolding path_segments
is_protected_path_guarded path roots {s} m g =
    let kept = Has-filter is_segment m (is_segment_of_guarded s (member_of_Has g)) in
    rw is_protected_path-segments (judged (path_segments path) kept)
  where
    judged :
        (xs : List Text)
        → Has s xs
        → (if is_empty xs then true else is_protected_parts xs roots) ≡ true
    judged [] n = refl
    judged (x ∷ xs) n = is_protected_parts_guarded (x ∷ xs) roots n g

template_below_root-append :
    (roots before root : List Text) (next : Text) (rest : List Text)
    → member (join_path (before ++ root)) roots ≡ true
    → template_below_root roots before (root ++ (lit "templates" ∷ next ∷ rest)) ≡ true
unfolding template_below_root
template_below_root-append roots before [] next rest h =
    rw (text_eq_refl (lit "templates"), rw append-nil at h)
template_below_root-append roots before (x ∷ []) next rest h =
    rw (template_below_root-append roots (before ++ (x ∷ [])) [] next rest (rw append-nil h))
      (or_true _)
template_below_root-append roots before (x ∷ y ∷ root) next rest h =
    rw
      (template_below_root-append roots (before ++ (x ∷ [])) (y ∷ root) next rest
        (rw append_assoc h))
      (or_true _)

Has-append {ℓ} : {A : Type ℓ} (x : A) (xs ys : List A) → Has x (xs ++ (x ∷ ys))
Has-append x [] ys = here refl
Has-append x (y ∷ xs) ys = there (Has-append x xs ys)

is_protected_parts-template :
    (roots root : List Text) (next : Text) (rest : List Text)
    → member (join_path root) roots ≡ true
    → is_protected_parts (root ++ (lit "templates" ∷ next ∷ rest)) (some roots) ≡ true
unfolding is_protected_parts is_chart_template
is_protected_parts-template roots root next rest h =
    rw (member_of_Has (Has-append (lit "templates") root (next ∷ rest)))
      (rw (template_below_root-append roots [] root next rest h) (ground arith))

-- A file below the `templates` directory of a discovered chart root is protected, whatever the
-- root's folder is called; the path may hold empty and "." segments.
is_protected_path-template :
    (path : Text) (roots root : List Text) (next : Text) (rest : List Text)
    → path_segments path ≡ root ++ (lit "templates" ∷ next ∷ rest)
    → Has (join_path root) roots
    → is_protected_path path (some roots) ≡ true
is_protected_path-template path roots root next rest e m =
    rw (is_protected_path-segments, e)
      (judged root (is_protected_parts-template roots root next rest (member_of_Has m)))
  where
    judged :
        (xs : List Text)
        → is_protected_parts (xs ++ (lit "templates" ∷ next ∷ rest)) (some roots) ≡ true
        → (if is_empty (xs ++ (lit "templates" ∷ next ∷ rest))
            then true
            else is_protected_parts (xs ++ (lit "templates" ∷ next ∷ rest)) (some roots))
          ≡ true
    judged [] h = h
    judged (x ∷ xs) h = h
