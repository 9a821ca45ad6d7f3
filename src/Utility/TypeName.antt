-- ===== src/Utility/TypeName.antt =====
-- lib/include/type_name.hpp: the name of a type, cut from the text that the compiler gives for
-- `__PRETTY_FUNCTION__`, which is an argument. The texts around the name are those of GCC.
use coroutine_http_server.Prelude.{
  ℕ, suc, ◌+◌, ◌-◌, ◌<◌, true, false, Option, none, some, [], ◌∷◌, ◌++◌, ◌==◌, ◌≡◌, refl, ◌∙◌, ap,
  arith, if◌then◌else◌, ltb, lt→ltb, Bytes, codes, starts_with, length, take, drop, Lacks,
  length-append, drop-length_append, take-length_append, append_assoc,
}

abbrev pub prefix : Bytes
prefix = codes "with T = "

abbrev pub suffix : ℕ
suffix = b']'

-- `function.find(prefix)` and `function.rfind(suffix)`, none for npos
unfoldable pub find_text : Bytes → Bytes → Option ℕ
unfolding starts_with
find_text t [] = if starts_with [] t then some 0 else none
find_text t (x ∷ s) =
    if starts_with (x ∷ s) t
    then some 0
    else elim (find_text t s) [ none ↦ none | some i ↦ some (suc i) ]

unfoldable pub rfind : ℕ → Bytes → Option ℕ
rfind c [] = none
rfind c (x ∷ s) = elim (rfind c s) [
  | some i ↦ some (suc i)
  | none ↦ if x == c then some 0 else none
]

-- `substring_as_array`, with its line end
unfoldable pub substring_as_array : Bytes → Bytes
substring_as_array str = str ++ 10 ∷ []

-- `type_name_array`; none if the assertion fails at compile time.
unfoldable pub type_name_array : Bytes → Option Bytes
unfolding find_text rfind substring_as_array
type_name_array function = elim (find_text prefix function) [
  | none ↦ none
  | some at_prefix ↦ elim (rfind suffix function) [
    | none ↦ none
    | some end ↦
        let start = at_prefix + length prefix in
        if ltb start end
        then some (substring_as_array (take (end - start) (drop start function)))
        else none
  ]
]

-- `type_name`
unfoldable pub type_name : Bytes → Option Bytes
unfolding type_name_array
type_name function = type_name_array function

-- The text does not begin at a place in the first part.
abbrev pub BeginsLater : Bytes → Bytes → Bytes → Type 0
BeginsLater t [] rest = Unit
BeginsLater t (c ∷ before) rest =
    (starts_with ((c ∷ before) ++ rest) t ≡ false) × BeginsLater t before rest

starts_with_append : (t s : Bytes) → starts_with (t ++ s) t ≡ true
unfolding starts_with
starts_with_append [] [] = refl
starts_with_append [] (c ∷ s) = refl
starts_with_append (c ∷ t) s = ground (arith, starts_with_append t s)

find_text_first :
    (t before rest : Bytes)
    → BeginsLater t before (t ++ rest)
    → find_text t (before ++ (t ++ rest)) ≡ some (length before)
unfolding find_text
find_text_first [] [] [] h = refl
find_text_first [] [] (c ∷ rest) h = refl
find_text_first (c ∷ t) [] rest h = ground (arith, starts_with_append (c ∷ t) rest)
find_text_first t (c ∷ before) rest h = ground (arith, find_text_first t before rest h.1)

rfind-none : (c : ℕ) (s : Bytes) → Lacks c s → rfind c s ≡ none
unfolding rfind
rfind-none c [] h = refl
rfind-none c (x ∷ s) h = ground (arith, rfind-none c s)

rfind_last : (c : ℕ) (s t : Bytes) → Lacks c t → rfind c (s ++ c ∷ t) ≡ some (length s)
unfolding rfind
rfind_last c [] t h = ground (arith, rfind-none c t)
rfind_last c (x ∷ s) t h = ground (arith, rfind_last c s t)

regroup : (b p n r : Bytes) → b ++ (p ++ (n ++ r)) ≡ (b ++ (p ++ n)) ++ r
regroup b p n r = simp append_assoc

rfind_bracket :
    (b p n r : Bytes)
    → Lacks suffix r
    → rfind suffix (b ++ (p ++ (n ++ suffix ∷ r))) ≡ some (length b + length p + length n)
rfind_bracket b p n r h =
    ap (rfind suffix) (regroup b p n (suffix ∷ r))
    ∙ rfind_last suffix (b ++ (p ++ n)) r h
    ∙ ap some (omega (arith, length-append {0} b (p ++ n), length-append {0} p n))

drop_two : (b p s : Bytes) → drop (length b + length p) (b ++ (p ++ s)) ≡ s
drop_two b p s =
    rw (← length-append b p) (rw (← append_assoc b p s) (drop-length_append (b ++ p) s))

take_name : (m : ℕ) (n r : Bytes) → take ((m + length n) - m) (n ++ r) ≡ n
take_name m n r =
    let e : (m + length n) - m ≡ length n = omega arith in rw e (take-length_append n r)

type_name_found :
    (function : Bytes) (start end : ℕ)
    → find_text prefix function ≡ some start
    → rfind suffix function ≡ some end
    → start + 9 < end
    → type_name function
      ≡ some (substring_as_array (take (end - (start + 9)) (drop (start + 9) function)))
unfolding type_name type_name_array
type_name_found function start end e e' lt =
    rw (e, e', lt→ltb (start + 9) end lt, type_name_array) refl

-- If the text is some text, the prefix, a name that is not empty, the bracket and a text without another
-- bracket, and the prefix does not begin earlier, then the result is the name with a line end.
pub type_name_cuts :
    (before : Bytes) (c : ℕ) (name after : Bytes)
    → BeginsLater prefix before (prefix ++ ((c ∷ name) ++ suffix ∷ after))
    → Lacks suffix after
    → type_name (before ++ (prefix ++ ((c ∷ name) ++ suffix ∷ after)))
      ≡ some ((c ∷ name) ++ 10 ∷ [])
unfolding substring_as_array
type_name_cuts before c name after first last =
    let rest = (c ∷ name) ++ suffix ∷ after in
    type_name_found (before ++ (prefix ++ rest)) (length before) _
      (find_text_first prefix before rest first) (rfind_bracket before prefix (c ∷ name) after last)
      (omega arith)
    ∙ ap (λ s. some (s ++ 10 ∷ [])) {y = c ∷ name}
        (rw (drop_two before prefix rest)
          (take_name (length before + 9) (c ∷ name) (suffix ∷ after)))
