-- ===== src/Github/Diff/Lines.antt =====
-- The hunks of one section of a diff, as integrations/github_client.py reads them.
use mathlib.Core.List.{foldl, foldl-append}
use llopster.Base.{
  ◌≡◌, refl, sym, ap, ◌∙◌, true, false, none, some, List, [], ◌∷◌, ◌++◌, map, All, Text, lit,
  starts_with, is_empty, Bool-cases, inl, inr, arith, append_assoc, append-nil,
}
use llopster.Github.Diff.{
  Hunk, ParseState, is_body_line, is_named, parse_line, flushed_hunks, open_hunk, add_line,
}
use llopster.Github.Diff.Headers.{header_start-header}
use llopster.Github.Diff.Sections.{
  Mark, mark_char, context, removed, added, BodyLine, body_text, IsContent, value, HunkText,
  IsHunkText, header_text, hunk_text, hunks_text, hunk_of, IsPreamble,
}

-- One line of a hunk.
parse_line-body :
    (st : ParseState) (mark : Mark) (content : Text)
    → IsContent mark content
    → is_named st.current_file ≡ true
    → parse_line st (mark_char mark ∷ content) ≡ add_line (mark_char mark ∷ content) st
unfolding parse_line starts_with lit is_body_line
parse_line-body st context content h named = rw named refl
parse_line-body st removed content h named = rw (h, named) refl
parse_line-body st added content h named = rw (h, named) refl

-- The lines of a hunk.
parse_body :
    (st : ParseState) (body : List BodyLine)
    → All (λ (line : BodyLine). IsContent line.mark line.content) body
    → is_named st.current_file ≡ true
    → foldl parse_line st (map body_text body)
      ≡ record st { current_hunk_lines = st.current_hunk_lines ++ map body_text body }
unfolding add_line
parse_body st [] h named =
    ap (λ lines. record st { current_hunk_lines = lines }) (sym (append-nil st.current_hunk_lines))
parse_body st (line ∷ body) (h, hs) named =
    ap (λ s. foldl parse_line s (map body_text body))
      (parse_line-body st line.mark line.content h named)
    ∙ parse_body (add_line (body_text line) st) body hs named
    ∙ ap (λ lines. record st { current_hunk_lines = lines })
        (append_assoc st.current_hunk_lines (body_text line ∷ []) (map body_text body))

parse_line-header :
    (st : ParseState) (h : HunkText) → parse_line st (header_text h) ≡ open_hunk (header_text h) st
unfolding parse_line starts_with lit
parse_line-header st h = refl

-- A hunk.
parse_hunk :
    (st : ParseState) (h : HunkText)
    → IsHunkText h
    → is_named st.current_file ≡ true
    → foldl parse_line st (hunk_text h) ≡ record st {
      current_hunks = flushed_hunks st;
      current_hunk_lines = map body_text h.body;
      current_old_start = value h.old_start;
    }
unfolding open_hunk
parse_hunk st h i named =
    ap (λ s. foldl parse_line s (map body_text h.body)) (parse_line-header st h)
    ∙ parse_body (open_hunk (header_text h) st) h.body i.contents named
    ∙ ap
        (λ o. record st {
          current_hunks = flushed_hunks st;
          current_hunk_lines = map body_text h.body;
          current_old_start = elim o [ some n ↦ n | none ↦ 1 ];
        })
        (header_start-header h i)

-- The hunks that were read between two states.
pub record HunksRead (st end : ParseState) (hunks : List Hunk) : Type 0 where
  pub flushed : flushed_hunks end ≡ flushed_hunks st ++ hunks
  pub file : end.current_file ≡ st.current_file
  pub patches : end.patches ≡ st.patches

is_empty-map :
    (body : List BodyLine) → is_empty body ≡ false → is_empty (map body_text body) ≡ false
is_empty-map [] h = h
is_empty-map (line ∷ body) h = refl

parse_hunk-HunksRead :
    (st : ParseState) (h : HunkText)
    → IsHunkText h
    → is_named st.current_file ≡ true
    → HunksRead st (foldl parse_line st (hunk_text h)) (hunk_of h ∷ [])
parse_hunk-HunksRead st h i named =
    rw (parse_hunk st h i named)
      (record { flushed = rw (is_empty-map h.body i.body) refl; file = refl; patches = refl })

pub parse_hunks-HunksRead :
    (st : ParseState) (hunks : List HunkText)
    → All IsHunkText hunks
    → is_named st.current_file ≡ true
    → HunksRead st (foldl parse_line st (hunks_text hunks)) (map hunk_of hunks)
parse_hunks-HunksRead st [] hs named = record {
  flushed = sym (append-nil (flushed_hunks st));
  file = refl;
  patches = refl;
}
parse_hunks-HunksRead st (h ∷ hunks) (i, hs) named =
    let first = parse_hunk-HunksRead st h i named in
    let next = foldl parse_line st (hunk_text h) in
    let more = parse_hunks-HunksRead next hunks hs (ap is_named first.file ∙ named) in
    rw (foldl-append parse_line st (hunk_text h) (hunks_text hunks)) (record {
      flushed =
          more.flushed
          ∙ ap (λ hs. hs ++ map hunk_of hunks) first.flushed
          ∙ append_assoc (flushed_hunks st) (hunk_of h ∷ []) (map hunk_of hunks);
      file = more.file ∙ first.file;
      patches = more.patches ∙ first.patches;
    })

-- A line that starts like one of the two paths starts like a line of a hunk.
preamble_minus : (line : Text) → is_body_line line ≡ false → starts_with line (lit "--- ") ≡ false
unfolding is_body_line starts_with lit
preamble_minus [] h = refl
preamble_minus (c ∷ s) h = ground arith

preamble_plus : (line : Text) → is_body_line line ≡ false → starts_with line (lit "+++ ") ≡ false
unfolding is_body_line starts_with lit
preamble_plus [] h = refl
preamble_plus (c ∷ s) h = ground arith

parse_line-preamble : (st : ParseState) (line : Text) → IsPreamble line → parse_line st line ≡ st
unfolding parse_line
parse_line-preamble st line h =
    rw (preamble_minus line h.body, preamble_plus line h.body, h.header, h.body)
      (elim (Bool-cases (is_named st.current_file)) [ inl e ↦ rw e refl | inr e ↦ rw e refl ])

pub parse_preamble :
    (st : ParseState) (lines : List Text) → All IsPreamble lines → foldl parse_line st lines ≡ st
parse_preamble st [] h = refl
parse_preamble st (line ∷ lines) (h, hs) =
    ap (λ s. foldl parse_line s lines) (parse_line-preamble st line h) ∙ parse_preamble st lines hs
