-- ===== src/Wtpool/CumulativeMd/Order/Laws.antt =====
-- The set of keys: what it holds, that it rises strictly, and that the order of insertion is lost.
use mcp_tools.Prelude.{
  ◌≡◌, ◌↔◌, ◌⊎◌, refl, inl, inr, ap, ap₂, ◌∙◌, sym, true, false, List, [], ◌∷◌, arith, Str, In,
  Bool-cases,
}
use Prim.Native.Nat.{Ordering}
use mcp_tools.Wtpool.CumulativeMd.Rows.{is_blank}
use mcp_tools.Wtpool.CumulativeMd.Order.{
  str_cmp, Key, key_cmp, insert, key_of, insert_lines, key_set,
}

abbrev flip : Ordering → Ordering
flip Ordering.lt = Ordering.gt
flip Ordering.eq = Ordering.eq
flip Ordering.gt = Ordering.lt

Ordering-cases : (o : Ordering) → (o ≡ Ordering.lt) ⊎ ((o ≡ Ordering.eq) ⊎ (o ≡ Ordering.gt))
Ordering-cases Ordering.lt = inl refl
Ordering-cases Ordering.eq = inr (inl refl)
Ordering-cases Ordering.gt = inr (inr refl)

str_cmp-flip : (s t : Str) → str_cmp t s ≡ flip (str_cmp s t)
unfolding str_cmp
str_cmp-flip [] [] = refl
str_cmp-flip [] (b ∷ t) = refl
str_cmp-flip (a ∷ s) [] = refl
str_cmp-flip (a ∷ s) (b ∷ t) = ground (arith, str_cmp-flip s t)

pub str_cmp-eq : (s t : Str) → str_cmp s t ≡ Ordering.eq → s ≡ t
unfolding str_cmp
str_cmp-eq [] [] h = refl
str_cmp-eq [] (b ∷ t) h = ground arith
str_cmp-eq (a ∷ s) [] h = ground arith
str_cmp-eq (a ∷ s) (b ∷ t) h = ground (arith, str_cmp-eq s t)

str_cmp_refl : (s : Str) → str_cmp s s ≡ Ordering.eq
unfolding str_cmp
str_cmp_refl [] = refl
str_cmp_refl (a ∷ s) = ground (arith, str_cmp_refl s)

str_cmp_trans :
    (s t u : Str)
    → str_cmp s t ≡ Ordering.lt
    → str_cmp t u ≡ Ordering.lt
    → str_cmp s u ≡ Ordering.lt
unfolding str_cmp
str_cmp_trans [] [] u h k = ground arith
str_cmp_trans [] (b ∷ t) [] h k = ground arith
str_cmp_trans [] (b ∷ t) (c ∷ u) h k = refl
str_cmp_trans (a ∷ s) [] u h k = ground arith
str_cmp_trans (a ∷ s) (b ∷ t) [] h k = ground arith
str_cmp_trans (a ∷ s) (b ∷ t) (c ∷ u) h k = ground (arith, str_cmp_trans s t u)

key_cmp-flip : (k l : Key) → key_cmp l k ≡ flip (key_cmp k l)
unfolding key_cmp
key_cmp-flip (b, l) (c, m) = ground (arith, str_cmp-flip b c, str_cmp-flip l m)

key_cmp-eq : (k l : Key) → key_cmp k l ≡ Ordering.eq → k ≡ l
unfolding key_cmp
key_cmp-eq (b, l) (c, m) h = ground (arith, str_cmp-eq b c, str_cmp-eq l m)

key_cmp_refl : (k : Key) → key_cmp k k ≡ Ordering.eq
unfolding key_cmp
key_cmp_refl (b, l) = ground (arith, str_cmp_refl b, str_cmp_refl l)

key_cmp_trans :
    (k l m : Key)
    → key_cmp k l ≡ Ordering.lt
    → key_cmp l m ≡ Ordering.lt
    → key_cmp k m ≡ Ordering.lt
unfolding key_cmp
key_cmp_trans (b, l) (c, m) (d, n) h k = ground (
  arith,
  str_cmp_trans b c d,
  str_cmp_trans l m n,
  str_cmp-eq b c,
  str_cmp-eq c d,
  str_cmp_refl b,
)

abbrev pub Below : Key → List Key → Type 0
Below k [] = Unit
Below k (x ∷ xs) = key_cmp k x ≡ Ordering.lt

-- Each key is smaller than the one behind it, so none occurs twice.
abbrev pub Rises : List Key → Type 0
Rises [] = Unit
Rises (k ∷ ks) = Below k ks × Rises ks

Below-insert :
    (j k : Key) (xs : List Key) → key_cmp j k ≡ Ordering.lt → Below j xs → Below j (insert k xs)
unfolding insert
Below-insert j k [] h b = h
Below-insert j k (x ∷ xs) h b = ground arith

insert-Rises : (k : Key) (xs : List Key) → Rises xs → Rises (insert k xs)
unfolding insert
insert-Rises k [] r = (tt, tt)
insert-Rises k (x ∷ xs) (b, r) = elim (Ordering-cases (key_cmp k x)) [
  | inl lt ↦ rw (lt, insert) (lt, (b, r))
  | inr (inl eq) ↦ rw (eq, insert) (b, r)
  | inr (inr gt) ↦
      let above : key_cmp x k ≡ Ordering.lt = key_cmp-flip k x ∙ ap flip gt in
      rw (gt, insert) (Below-insert x k xs above b, insert-Rises k xs r)
]

In-insert : (j k : Key) (xs : List Key) → In j (insert k xs) ↔ ((j ≡ k) ⊎ In j xs)
unfolding insert
In-insert j k [] = (λ m. m, λ m. m)
In-insert j k (x ∷ xs) = ground (arith, In-insert j k xs, key_cmp-eq k x)

insert_lines-Rises :
    (keyed : List Key) (lines : List Str) → Rises keyed → Rises (insert_lines keyed lines)
unfolding insert_lines
insert_lines-Rises keyed [] r = r
insert_lines-Rises keyed (line ∷ lines) r = elim (Bool-cases (is_blank line)) [
  | inl blank ↦ rw blank (insert_lines-Rises keyed lines r)
  | inr row ↦
      rw row
        (insert_lines-Rises (insert (key_of line) keyed) lines (insert-Rises (key_of line) keyed r))
]

-- A key of one of the lines that are not blank.
abbrev pub KeyOf : Key → List Str → Type 0
KeyOf k lines = (line : Str) × In line lines × (is_blank line ≡ false) × (k ≡ key_of line)

KeyOf-blank :
    (k : Key) (line : Str) (lines : List Str)
    → is_blank line ≡ true
    → KeyOf k (line ∷ lines) ↔ KeyOf k lines
KeyOf-blank k line lines blank = (
  λ (l, m, row, e). elim m [ inl same ↦ absurd (cc) | inr later ↦ (l, later, row, e) ],
  λ (l, m, row, e). (l, inr m, row, e),
)

KeyOf-row :
    (k : Key) (line : Str) (lines : List Str)
    → is_blank line ≡ false
    → KeyOf k (line ∷ lines) ↔ ((k ≡ key_of line) ⊎ KeyOf k lines)
KeyOf-row k line lines row = (
  λ (l, m, r, e). elim m [ inl same ↦ inl (e ∙ ap key_of same) | inr later ↦ inr (l, later, r, e) ],
  λ h. elim h [ inl e ↦ (line, inl refl, row, e) | inr (l, m, r, e) ↦ (l, inr m, r, e) ],
)

In-insert_lines :
    (k : Key) (keyed : List Key) (lines : List Str)
    → In k (insert_lines keyed lines) ↔ (In k keyed ⊎ KeyOf k lines)
unfolding insert_lines
In-insert_lines k keyed [] = (λ m. inl m, λ m. elim m [ inl h ↦ h | inr (_, h, _, _) ↦ absurd h ])
In-insert_lines k keyed (line ∷ lines) = elim (Bool-cases (is_blank line)) [
  | inl blank ↦
      let ih = In-insert_lines k keyed lines in
      let same = KeyOf-blank k line lines blank in rw blank (ground (arith, ih, same))
  | inr row ↦
      let ih = In-insert_lines k (insert (key_of line) keyed) lines in
      let new = In-insert k (key_of line) keyed in
      let same = KeyOf-row k line lines row in rw row (ground (arith, ih, new, same))
]

-- The set rises strictly, and holds exactly the keys of the lines that are not blank.
pub key_set-Rises : (lines : List Str) → Rises (key_set lines)
unfolding key_set
key_set-Rises lines = insert_lines-Rises [] lines tt

pub In-key_set : (k : Key) (lines : List Str) → In k (key_set lines) ↔ KeyOf k lines
unfolding key_set
In-key_set k lines =
    let e = In-insert_lines k [] lines in
    (λ m. elim (e.0 m) [ inl h ↦ absurd h | inr h ↦ h ], λ h. e.1 (inr h))

Below-In : (k j : Key) (xs : List Key) → Below k xs → Rises xs → In j xs → key_cmp k j ≡ Ordering.lt
Below-In k j [] b r m = absurd m
Below-In k j (x ∷ xs) b r (inl e) = rw e b
Below-In k j (x ∷ xs) b (c, r) (inr m) = key_cmp_trans k x j b (Below-In x j xs c r m)

heads_eq :
    (x y : Key) (xs ys : List Key)
    → Rises (x ∷ xs)
    → Rises (y ∷ ys)
    → In x (y ∷ ys)
    → In y (x ∷ xs)
    → x ≡ y
heads_eq x y xs ys (b, r) (c, s) (inl e) _ = e
heads_eq x y xs ys (b, r) (c, s) (inr m) (inl e) = sym e
heads_eq x y xs ys (b, r) (c, s) (inr m) (inr n) =
    absurd (ground (arith, Below-In x y xs b r n, Below-In y x ys c s m, key_cmp-flip x y))

tail_member :
    (x y k : Key) (xs ys : List Key) → x ≡ y → key_cmp x k ≡ Ordering.lt → In k (y ∷ ys) → In k ys
tail_member x y k xs ys same lt (inl e) = absurd (ground (arith, key_cmp_refl k))
tail_member x y k xs ys same lt (inr m) = m

-- Two strictly rising lists with the same members are one.
pub Rises-ext :
    (xs ys : List Key)
    → Rises xs
    → Rises ys
    → ((k : Key) → In k xs → In k ys)
    → ((k : Key) → In k ys → In k xs)
    → xs ≡ ys
Rises-ext [] [] r s f g = refl
Rises-ext [] (y ∷ ys) r s f g = absurd (g y (inl refl))
Rises-ext (x ∷ xs) [] r s f g = absurd (f x (inl refl))
Rises-ext (x ∷ xs) (y ∷ ys) (b, r) (c, s) f g =
    let same = heads_eq x y xs ys (b, r) (c, s) (f x (inl refl)) (g y (inl refl)) in
    ap₂ ◌∷◌ same (
      Rises-ext xs ys r s
        (λ k m. tail_member x y k xs ys same (Below-In x k xs b r m) (f k (inr m)))
        (λ k m. tail_member y x k ys xs (sym same) (Below-In y k ys c s m) (g k (inr m))))

-- A set of keys depends on the lines as a set alone.
pub key_set-ext :
    (lines other : List Str) → ((l : Str) → In l lines ↔ In l other) → key_set lines ≡ key_set other
key_set-ext lines other same =
    Rises-ext (key_set lines) (key_set other) (key_set-Rises lines) (key_set-Rises other)
      (λ k m.
        let (l, i, row, e) = (In-key_set k lines).0 m in
        (In-key_set k other).1 (l, (same l).0 i, row, e))
      (λ k m.
        let (l, i, row, e) = (In-key_set k other).0 m in
        (In-key_set k lines).1 (l, (same l).1 i, row, e))
