-- ===== src/Cluster/Names.antt =====
-- integrations/kubernetes_client.py: what a name that passes `_segment` cannot hold.
use llopster.Base.{
  ℕ, ◌+◌, ◌≤◌, ◌≡◌, refl, [], ◌∷◌, Bool, true, false, ◌&&◌, not, leb, ◌==◌, any, Text, is_empty,
  length, arith, Without,
}
use llopster.Cluster.Client.{
  chomp, is_name_char, starts_alnum, ends_alnum, is_object_name, is_segment,
}
use llopster.Cluster.Permitted.{IsName}

-- The text behind `$` is a line feed at most.
Without-chomp :
    (x : ℕ) (s : Text)
    → (10 == x) ≡ false
    → (is_name_char x) ≡ false
    → any (λ c. not (is_name_char c)) (chomp s) ≡ false
    → Without x s
unfolding chomp
Without-chomp x [] n e h = tt
Without-chomp x (c ∷ []) n e h = ground arith
Without-chomp x (c ∷ d ∷ s) n e h = (ground arith, Without-chomp x (d ∷ s) n e (ground arith))

length-chomp : (s : Text) → length s ≤ length (chomp s) + 1
unfolding chomp
length-chomp [] = omega arith
length-chomp (c ∷ []) = ground arith
length-chomp (c ∷ d ∷ s) = omega (arith, length-chomp (d ∷ s))

and_true : (a b : Bool) → (a && b) ≡ true → (a ≡ true) × (b ≡ true)
and_true true b h = (refl, h)
and_true false b h = cc

is_false : (b : Bool) → not b ≡ true → b ≡ false
is_false true h = cc
is_false false h = refl

full_of_start : (s : Text) → starts_alnum (chomp s) ≡ true → is_empty s ≡ false
unfolding chomp
full_of_start [] h = cc
full_of_start (c ∷ s) h = refl

-- A name that passes the test of a segment: it is neither empty nor longer than 254, and holds no
-- "/", "?", "#", "%" nor "..".
pub is_segment-IsName : (name : Text) → is_segment name ≡ true → IsName name
unfolding is_segment is_object_name
is_segment-IsName name h =
    let (object, dots) = and_true (is_object_name name) _ h in
    let (named, size) = and_true _ (leb (length (chomp name)) 253) object in
    let (ends, chars) = and_true _ (not (any (λ c. not (is_name_char c)) (chomp name))) named in
    let (start, last) = and_true (starts_alnum (chomp name)) (ends_alnum (chomp name)) ends in
    record {
      full = full_of_start name start;
      short = ground (arith, length-chomp name);
      no_slash = Without-chomp b'/' name refl refl (is_false _ chars);
      no_query = Without-chomp b'?' name refl refl (is_false _ chars);
      no_fragment = Without-chomp b'#' name refl refl (is_false _ chars);
      no_escape = Without-chomp b'%' name refl refl (is_false _ chars);
      no_parent = is_false _ dots;
    }
