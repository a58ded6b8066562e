-- ===== src/Http/Mux/Unique.antt =====
-- No two of the JSON patterns match the same request: the mux accepts them, and their order does not
-- matter. The catch-all "/" is left to the requests that none of them matches.
use mathlib.Core.Bool.{false≢true}
use mathlib.Core.Option
use mathlib.Core.List.{Memᴰ}
use starfighter_workflow.Common.{
  All, String, Bool, true, false, not, ◌&&◌, ◌||◌, Option, none, some, List, [], ◌∷◌, ◌≡◌, refl,
  sym, ap, ◌∙◌, ◌==◌, eq_iff, ◌↔◌, inl, inr, arith, if◌then◌else◌, is_some, any, Option-cases,
  and_left, and_right,
}
use starfighter_workflow.Http.{Method, get_method, post, patch, delete_method}
use starfighter_workflow.Http.Mux.{
  Decoders, Segment, literal, wildcard, pattern_of, match, match_method, Entry, match_entry, find,
  entries,
}

-- whether some path matches both patterns
unfoldable pub overlap : List Segment → List Segment → Bool
overlap [] [] = true
overlap (literal s ∷ p) (literal t ∷ q) = s == t && overlap p q
overlap (_ ∷ p) (_ ∷ q) = overlap p q
overlap _ _ = false

rest_matches :
    (s : String) (o : Option String)
    → is_some (if s == "" || s == "/" then none else Option.map (λ v. s) o) ≡ true
    → is_some o ≡ true
rest_matches s none h = ground arith
rest_matches s (some x) h = refl

pub both_match :
    (p q : List Segment) (ss : List String)
    → is_some (match p ss) ≡ true
    → is_some (match q ss) ≡ true
    → overlap p q ≡ true
unfolding match overlap
both_match [] [] [] h k = refl
both_match (literal s ∷ p) (literal t ∷ q) (u ∷ ss) h k =
    ground (arith, both_match p q ss, eq_iff u s, eq_iff u t, eq_iff s t)
both_match (literal s ∷ p) (wildcard ∷ q) (u ∷ ss) h k =
    ground (arith, both_match p q ss, rest_matches u (match q ss) k)
both_match (wildcard ∷ p) (literal s ∷ q) (u ∷ ss) h k =
    ground (arith, both_match p q ss, rest_matches u (match p ss) h)
both_match (wildcard ∷ p) (wildcard ∷ q) (u ∷ ss) h k =
    both_match p q ss (rest_matches u (match p ss) h) (rest_matches u (match q ss) k)
both_match _ _ _ h k = absurd (ground arith)

unfoldable share : Method → Method → Bool
share a b = match_method a b || match_method b a

both_methods :
    (a b m : Method) → match_method a m ≡ true → match_method b m ≡ true → share a b ≡ true
unfolding match_method share
both_methods get_method get_method m h k = refl
both_methods post post m h k = refl
both_methods patch patch m h k = refl
both_methods delete_method delete_method m h k = refl
both_methods a b m h k = ground arith

-- whether some request matches both entries, on which the mux would refuse the second
unfoldable clash : Entry → Entry → Bool
clash e f = share e.method f.method && overlap (pattern_of e.pattern) (pattern_of f.pattern)

unfoldable no_clash : List Entry → Bool
no_clash [] = true
no_clash (e ∷ es) = not (any (clash e) es) && no_clash es

entries-no_clash : (d : Decoders) → no_clash (entries d) ≡ true
unfolding no_clash clash entries share overlap match_method pattern_of
entries-no_clash d = refl

module _ (m : Method) (ss : List String) where
  pub method-matches :
      (e : Entry) {id : String} → match_entry e m ss ≡ some id → match_method e.method m ≡ true
  unfolding match_entry
  method-matches e h = ground arith

  pub pattern-matches :
      (e : Entry) {id : String}
      → match_entry e m ss ≡ some id
      → is_some (match (pattern_of e.pattern) ss) ≡ true
  unfolding match_entry
  pattern-matches e h = ground arith

  both-clash :
      (e f : Entry) {x y : String}
      → match_entry e m ss ≡ some x
      → match_entry f m ss ≡ some y
      → clash e f ≡ true
  unfolding clash
  both-clash e f h k =
      rw (both_methods e.method f.method m (method-matches e h) (method-matches f k)) (
        both_match (pattern_of e.pattern) (pattern_of f.pattern) ss (pattern-matches e h)
          (pattern-matches f k))

  clashing :
      (e : Entry) (es : List Entry) {f : Entry} {x y : String}
      → Memᴰ f es
      → match_entry e m ss ≡ some x
      → match_entry f m ss ≡ some y
      → any (clash e) es ≡ true
  clashing e [] member h k = elim member [ ]
  clashing e (g ∷ es) (Memᴰ.head same) h k = rw (← same, both-clash e _ h k) refl
  clashing e (g ∷ es) (Memᴰ.tail member) h k = ground (arith, clashing e es member h k)

  pub found :
      (es : List Entry) {id : String} {e : Entry}
      → find es m ss ≡ some (id, e)
      → Memᴰ e es × (match_entry e m ss ≡ some id)
  unfolding find
  found [] h = absurd (ground arith)
  found (f ∷ es) {id} {e} h = elim (Option-cases (match_entry f m ss)) [
    | inl other ↦
        let (member, matched) =
          found es
            (sym (ap (λ o. elim o [ none ↦ find es m ss | some i ↦ some (i, f) ]) other) ∙ h) in
        (Memᴰ.tail member, matched)
    | inr (i, hit) ↦
        let same : some (i, f) ≡ some (id, e) =
          sym (ap (λ o. elim o [ none ↦ find es m ss | some i ↦ some (i, f) ]) hit) ∙ h in
        let parts : (i, f) ≡ (id, e) = Option.some_inj.0 same in
        (
          Memᴰ.head (sym (ap (λ x. x.1) parts)),
          ap (λ g. match_entry g m ss) (sym (ap (λ x. x.1) parts)) ∙ hit ∙ ap (λ x. some x.0) parts,
        )
  ]

  pub none_found : (es : List Entry) → find es m ss ≡ none → All (λ e. match_entry e m ss ≡ none) es
  unfolding find
  none_found [] h = tt
  none_found (f ∷ es) h = elim (Option-cases (match_entry f m ss)) [
    | inl other ↦ (
      other,
      none_found es
          (sym (ap (λ o. elim o [ none ↦ find es m ss | some i ↦ some (i, f) ]) other) ∙ h),
    )
    | inr (i, hit) ↦
        let missed : some (i, f) ≡ none =
          sym (ap (λ o. elim o [ none ↦ find es m ss | some i ↦ some (i, f) ]) hit) ∙ h in
        absurd (Option.some-ne-none (i, f) missed)
  ]

  finds :
      (es : List Entry) {id : String} {e : Entry}
      → no_clash es ≡ true
      → Memᴰ e es
      → match_entry e m ss ≡ some id
      → find es m ss ≡ some (id, e)
  unfolding find no_clash
  finds [] clear member h = elim member [ ]
  finds (f ∷ es) {id} {e} clear (Memᴰ.head same) h = rw (← same) (rw (h, find) refl)
  finds (f ∷ es) {id} {e} clear (Memᴰ.tail member) h = elim (Option-cases (match_entry f m ss)) [
    | inl other ↦ rw (other, find) (finds es (and_right _ _ clear) member h)
    | inr (i, hit) ↦
        absurd (false≢true (sym (ap not (clashing f es member hit h)) ∙ and_left _ _ clear))
  ]

-- Among the JSON routes, the mux gives a request to an entry exactly if the entry's pattern matches
-- it, with the path value of the pattern: no two entries match the same request, so neither the
-- order of their registrations nor the precedence of their patterns matters.
pub find_iff :
    (d : Decoders) (m : Method) (ss : List String) (id : String) (e : Entry)
    → (find (entries d) m ss ≡ some (id, e)) ↔ (Memᴰ e (entries d) × (match_entry e m ss ≡ some id))
find_iff d m ss id e =
    (found m ss (entries d), λ h. finds m ss (entries d) (entries-no_clash d) h.0 h.1)
