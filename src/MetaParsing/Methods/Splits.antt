-- ===== src/MetaParsing/Methods/Splits.antt =====
-- `Method::parse` and `MethodAndTypes::parse` of src/meta_parsing.rs: they return for every
-- text, and a method keeps its own.
use mathlib.Core.Path.{subst}
use aurora_engine.Prelude.{
  ℕ, zero, suc, ◌+◌, ◌-◌, ◌≤◌, ◌<◌, ◌≡◌, inl, inr, sym, ◌∙◌, ap, List, [], ◌∷◌, ◌++◌, arith, ok,
  >>=-ok, Returns, >>=-Returns, Bytes, length, take, length-append, take_of_length, Bool-cases,
}
use aurora_engine.MetaParsing.Syntax.{Method, Arg, MetaPackages}
use aurora_engine.MetaParsing.ArgTypes.{parse_type}
use aurora_engine.MetaParsing.ArgTypes.Depth.{parse_type-Returns}
use aurora_engine.MetaParsing.Methods.{
  is_arg_start, parse_ident, parse_type_raw, consume, starts_with, parse_arg, args_loop, some_args,
  parse_args, parse_method, types_loop, parse_method_and_types,
}
use aurora_engine.MetaParsing.Methods.Consumes.{
  Consumes, Consumes-weaken, Consumes->>=, Consumes-after, Consumes-Returns, rest_of, all_of,
  nothing, split_at-ok, parse_ident-Consumes, parse_type_raw-Consumes, consume-Consumes,
}

pub take_front :
    (front rest text : Bytes) → text ≡ front ++ rest → take (length text - length rest) text ≡ front
take_front front rest text h =
    rw h (take_of_length _ front rest (omega (arith, length-append front rest)))

module _ (m : MetaPackages) where
  parse_arg-Consumes : (text : Bytes) → Consumes rest_of 2 text (parse_arg m text)
  unfolding parse_arg
  parse_arg-Consumes text =
      Consumes->>= rest_of rest_of 0 2 text (parse_type_raw text) _ (parse_type_raw-Consumes text)
        λ (type_raw, rest) _.
          Consumes-after rest_of 2 rest (parse_type m type_raw) _ (parse_type-Returns m type_raw)
            λ t.
              Consumes->>= all_of rest_of 1 1 rest (consume b' ' rest) _
                (consume-Consumes b' ' rest)
                λ rest _.
                  Consumes->>= rest_of rest_of 1 0 rest (parse_ident rest) _
                    (parse_ident-Consumes rest) λ (name, rest) _. nothing rest

  args_loop-Consumes :
      (fuel : ℕ) (args : List Arg) (text : Bytes)
      → length text < fuel
      → Consumes rest_of 0 text (args_loop m fuel args text)
  unfolding args_loop
  args_loop-Consumes zero args text h = absurd (omega arith)
  args_loop-Consumes (suc fuel) args text h = elim (Bool-cases (starts_with text b',')) [
    | inl e ↦ Consumes-weaken rest_of 3 0 text _ (omega arith) (
        rw (Consumes, e)
          (Consumes->>= all_of rest_of 1 2 text (consume b',' text) _ (consume-Consumes b',' text)
            λ rest s.
              Consumes->>= rest_of rest_of 2 0 rest (parse_arg m rest) _ (parse_arg-Consumes rest)
                λ (arg, r) s'. args_loop-Consumes fuel (args ++ arg ∷ []) r (omega arith)))
    | inr e ↦ rw (Consumes, e) (nothing text)
  ]

  some_args-Consumes : (text : Bytes) → Consumes rest_of 0 text (some_args m text)
  unfolding some_args
  some_args-Consumes [] = tt
  some_args-Consumes (c ∷ cs) = elim (Bool-cases (is_arg_start c)) [
    | inl e ↦ Consumes-weaken rest_of 2 0 (c ∷ cs) _ (omega arith) (
        rw (Consumes, e)
          (Consumes->>= rest_of rest_of 2 0 (c ∷ cs) (parse_arg m (c ∷ cs)) _
            (parse_arg-Consumes (c ∷ cs))
            λ (arg, r) s. args_loop-Consumes (length r + 1) (arg ∷ []) r (omega arith)))
    | inr e ↦ rw (Consumes, e) (nothing (c ∷ cs))
  ]

  parse_args-Consumes : (text : Bytes) → Consumes rest_of 2 text (parse_args m text)
  unfolding parse_args
  parse_args-Consumes text =
      Consumes->>= all_of rest_of 1 1 text (consume b'(' text) _ (consume-Consumes b'(' text)
        λ rest _.
          Consumes->>= rest_of rest_of 0 1 rest (some_args m rest) _ (some_args-Consumes rest)
            λ (args, rest) _.
              Consumes->>= all_of rest_of 1 0 rest (consume b')' rest) _
                (consume-Consumes b')' rest) λ rest _. nothing rest

  parse_method-Consumes : (text : Bytes) → Consumes rest_of 3 text (parse_method m text)
  unfolding parse_method
  parse_method-Consumes text =
      Consumes->>= rest_of rest_of 1 2 text (parse_ident text) _ (parse_ident-Consumes text)
        λ (name, rest) _.
          Consumes->>= rest_of rest_of 2 0 rest (parse_args m rest) _ (parse_args-Consumes rest)
            λ (args, rest) _.
              rw (Consumes, split_at-ok (length text - length rest) text (omega arith))
                (nothing rest)

  -- A parsed method keeps its own text: with the text that remains it is the text parsed, and the
  -- method's part has at least three characters.
  pub parse_method-raw :
      (text : Bytes) {method : Method} {rest : Bytes}
      → parse_method m text ≡ ok (method, rest)
      → (method.raw ++ rest ≡ text) × (3 ≤ length method.raw)
  unfolding parse_method
  parse_method-raw text {method} {rest} e =
      let (front, parts, size) : Consumes rest_of 3 text (ok (method, rest)) =
        subst (Consumes rest_of 3 text) e (parse_method-Consumes text) in
      let ((name, r), _, e1) = >>=-ok (parse_ident text) _ e in
      let ((args, r'), _, e2) = >>=-ok (parse_args m r) _ e1 in
      let kept : ok
            (record { name = name; raw = take (length text - length r') text; args = args }, r')
          ≡ ok (method, rest) =
        rw (split_at-ok (length text - length r') text (omega arith)) at e2 in
      let ends : r' ≡ rest = cc kept in
      let taken : method.raw ≡ take (length text - length r') text = cc kept in
      let whole : method.raw ≡ front = taken ∙ take_front front r' text (rw ends parts) in
      (rw whole (sym parts), rw whole size)

  types_loop-Returns :
      (fuel : ℕ) (sequences : List Bytes) (parsed : List (Bytes × Method)) (text : Bytes)
      → length text ≤ fuel
      → Returns (types_loop m fuel sequences parsed text)
  unfolding types_loop
  types_loop-Returns fuel sequences parsed [] h = tt
  types_loop-Returns zero sequences parsed (c ∷ cs) h = absurd (omega arith)
  types_loop-Returns (suc fuel) sequences parsed (c ∷ cs) h =
      >>=-Returns (parse_method m (c ∷ cs)) _
        (Consumes-Returns rest_of 3 (c ∷ cs) _ (parse_method-Consumes (c ∷ cs)))
        λ (ty, rest) e.
          let (whole, size) = parse_method-raw (c ∷ cs) e in
          types_loop-Returns fuel _ _ rest
            (omega (arith, ap length whole, length-append ty.raw rest))

  -- `MethodAndTypes::parse` returns a definition or an error for every text: no index is out of
  -- range, and no loop goes on for ever.
  pub parse_method_and_types-Returns : (text : Bytes) → Returns (parse_method_and_types m text)
  unfolding parse_method_and_types
  parse_method_and_types-Returns text =
      >>=-Returns (parse_method m text) _
        (Consumes-Returns rest_of 3 text _ (parse_method-Consumes text))
        λ (method, rest) _.
          >>=-Returns (types_loop m (length rest) [] [] rest) _
            (types_loop-Returns (length rest) [] [] rest (omega arith)) λ _ _. tt
