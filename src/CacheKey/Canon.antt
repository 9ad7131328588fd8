-- ===== src/CacheKey/Canon.antt =====
-- canonValue of src/manifold_cache.cpp tells values apart.
use openscad_cpp_evaluator.Prelude.{
  ℕ, ◌≡◌, refl, ap, ◌∙◌, sym, arith, true, false, List, [], ◌∷◌, ◌++◌, append_assoc, append-nil,
}
use openscad_cpp_evaluator.Value.{
  OscRange, Value, Values, Fields, undef, boolean, number, string, vector, range, object, closure,
  none_left, item, no_fields, field,
}
use openscad_cpp_evaluator.CacheKey.{
  Formats, count_items, count_fields, value_has_closure, items_have_closure, fields_have_closure,
  len_prefixed, enclosed, canon_value, canon_items, canon_fields,
}
use openscad_cpp_evaluator.CacheKey.Prefix.{
  IsFaithful, or-false, same_length, digits_paren, count_eq, len_prefixed-injective, tail_eq,
}

abbrev pub first_byte : List ℕ → ℕ
first_byte [] = 0
first_byte (c ∷ cs) = c

abbrev second_byte : List ℕ → ℕ
second_byte [] = 0
second_byte (c ∷ cs) = first_byte cs

from_closure : {A : Type 0} (x y : A) → true ≡ false → x ≡ y
from_closure x y h = cc

module _ {D : Type 0} (format : Formats D) (faithful : IsFaithful format) where
  pub len_prefixed-two :
      (s t xs ys r r' : List ℕ)
      → (len_prefixed format s ++ xs) ++ r ≡ (len_prefixed format t ++ ys) ++ r'
      → (s ≡ t) × (xs ++ r ≡ ys ++ r')
  len_prefixed-two s t xs ys r r' h =
      len_prefixed-injective format faithful s t (xs ++ r) (ys ++ r') (
        sym (append_assoc (len_prefixed format s) xs r)
        ∙ h
        ∙ append_assoc (len_prefixed format t) ys r')

  len_prefixed_eq : (s t : List ℕ) → len_prefixed format s ≡ len_prefixed format t → s ≡ t
  len_prefixed_eq s t h =
      (len_prefixed-injective format faithful s t [] []
        (append-nil (len_prefixed format s) ∙ h ∙ sym (append-nil (len_prefixed format t)))).0

  -- Three numbers of 16 digits.
  range_eq :
      (q r : OscRange D)
      → format.hex_bits q.start ++ (format.hex_bits q.step ++ format.hex_bits q.end)
        ≡ format.hex_bits r.start ++ (format.hex_bits r.step ++ format.hex_bits r.end)
      → range q ≡ range r
  range_eq q r h =
      let (start, rest) =
        same_length (format.hex_bits q.start) (format.hex_bits r.start) _ _
          (faithful.hex_length q.start ∙ sym (faithful.hex_length r.start)) h in
      let (step, end) =
        same_length (format.hex_bits q.step) (format.hex_bits r.step) _ _
          (faithful.hex_length q.step ∙ sym (faithful.hex_length r.step)) rest in
      let a = faithful.hex_injective q.start r.start start in
      let b = faithful.hex_injective q.step r.step step in
      let c = faithful.hex_injective q.end r.end end in
      λ i. range (record { start = a i; step = b i; end = c i })

  -- The count and the contents of a collection.
  pub enclosed_eq :
      (open_byte m n : ℕ) (xs ys : List ℕ)
      → enclosed format open_byte m xs ≡ enclosed format open_byte n ys
      → (m ≡ n) × (xs ++ 0x29 ∷ [] ≡ ys ++ 0x29 ∷ [])
  enclosed_eq open_byte m n xs ys h = count_eq format faithful 0x28 m n _ _ digits_paren (tail_eq h)

  mutual
    unfolding canon_value canon_items canon_fields value_has_closure items_have_closure
        fields_have_closure

    canon_eq :
        (v w : Value D)
        → value_has_closure v ≡ false
        → value_has_closure w ≡ false
        → canon_value format v ≡ canon_value format w
        → v ≡ w
    canon_eq undef undef h k e = refl
    canon_eq undef _ h k e = absurd (omega (arith, ap first_byte e))
    canon_eq (boolean true) (boolean true) h k e = refl
    canon_eq (boolean true) (boolean false) h k e = absurd (omega (arith, ap second_byte e))
    canon_eq (boolean false) (boolean true) h k e = absurd (omega (arith, ap second_byte e))
    canon_eq (boolean false) (boolean false) h k e = refl
    canon_eq (boolean b) _ h k e = absurd (omega (arith, ap first_byte e))
    canon_eq (number d) (number d') h k e = ap number (faithful.hex_injective d d' (tail_eq e))
    canon_eq (number d) _ h k e = absurd (omega (arith, ap first_byte e))
    canon_eq (string s) (string t) h k e = ap string (len_prefixed_eq s t (tail_eq e))
    canon_eq (string s) _ h k e = absurd (omega (arith, ap first_byte e))
    canon_eq (vector xs) (vector ys) h k e =
        let (count, contents) = enclosed_eq 0x4c (count_items xs) (count_items ys) _ _ e in
        ap vector (items_eq xs ys _ _ h k count contents).0
    canon_eq (vector xs) _ h k e = absurd (omega (arith, ap first_byte e))
    canon_eq (range q) (range r) h k e = range_eq q r (tail_eq e)
    canon_eq (range q) _ h k e = absurd (omega (arith, ap first_byte e))
    canon_eq (object fs) (object gs) h k e =
        let (count, contents) = enclosed_eq 0x4f (count_fields fs) (count_fields gs) _ _ e in
        ap object (fields_eq fs gs _ _ h k count contents).0
    canon_eq (object fs) _ h k e = absurd (omega (arith, ap first_byte e))
    canon_eq (closure n) w h k e = from_closure (closure n) w h

    items_eq :
        (xs ys : Values D) (r r' : List ℕ)
        → items_have_closure xs ≡ false
        → items_have_closure ys ≡ false
        → count_items xs ≡ count_items ys
        → canon_items format xs ++ r ≡ canon_items format ys ++ r'
        → (xs ≡ ys) × (r ≡ r')
    items_eq none_left none_left r r' h k c e = (refl, e)
    items_eq none_left (item w ys) r r' h k c e = absurd (omega arith)
    items_eq (item v xs) none_left r r' h k c e = absurd (omega arith)
    items_eq (item v xs) (item w ys) r r' h k c e =
        let (hv, hs) = or-false (value_has_closure v) (items_have_closure xs) h in
        let (kw, ks) = or-false (value_has_closure w) (items_have_closure ys) k in
        let (same, rest) =
          len_prefixed-two (canon_value format v) (canon_value format w) _ _ r r' e in
        let (items, end) = items_eq xs ys r r' hs ks (omega arith) rest in
        let first = canon_eq v w hv kw same in (λ i. item (first i) (items i), end)

    pub fields_eq :
        (fs gs : Fields D) (r r' : List ℕ)
        → fields_have_closure fs ≡ false
        → fields_have_closure gs ≡ false
        → count_fields fs ≡ count_fields gs
        → canon_fields format fs ++ r ≡ canon_fields format gs ++ r'
        → (fs ≡ gs) × (r ≡ r')
    fields_eq no_fields no_fields r r' h k c e = (refl, e)
    fields_eq no_fields (field l w gs) r r' h k c e = absurd (omega arith)
    fields_eq (field k v fs) no_fields r r' h l c e = absurd (omega arith)
    fields_eq (field m v fs) (field l w gs) r r' h k c e =
        let (hv, hs) = or-false (value_has_closure v) (fields_have_closure fs) h in
        let (kw, ks) = or-false (value_has_closure w) (fields_have_closure gs) k in
        let (key, more) = len_prefixed-two m l _ _ r r' e in
        let (same, rest) =
          len_prefixed-two (canon_value format v) (canon_value format w) _ _ r r' more in
        let (fields, end) = fields_eq fs gs r r' hs ks (omega arith) rest in
        let first = canon_eq v w hv kw same in (λ i. field (key i) (first i) (fields i), end)

  -- Two values without functions in them that canonValue writes alike are equal, doubles by their bits.
  pub canon_value-injective :
      (v w : Value D)
      → value_has_closure v ≡ false
      → value_has_closure w ≡ false
      → canon_value format v ≡ canon_value format w
      → v ≡ w
  canon_value-injective v w h k e = canon_eq v w h k e
