-- ===== src/Router/Tokens.antt =====
-- router/mod.rs: the tables of tokens and of references agree, whatever is done to them.
use ida_mcp.Base.{
  ◌≤◌, ◌<◌, ◌≡◌, ◌≢◌, refl, sym, ap, subst, inl, inr, ite, Bool, true, not, ◌&&◌, ◌||◌, none, some,
  List, [], ◌∷◌, Text, text_eq, length, text_discrete, any, any-append, unwrap_or, if◌then◌else◌,
  Option-cases, arith, HashMap, text_key,
}
use ida_mcp.Base.Map
use ida_mcp.Router.{RouterInner}
use ida_mcp.Router.Registry.{set_insert, set_remove, remove_tokens, drop_tokens}
use ida_mcp.Router.Refs.{tokens_of, add_ref, release_ref_token, release_from}

abbrev pub holds : Text → List Text → Bool
holds t ts = any (text_eq t) ts

-- A token leads to a handle exactly if the handle holds it.
pub record Agree (r : RouterInner) : Type 0 where
  pub to_ref : (t h : Text) → Map.get t r.token_to_handle ≡ some h → holds t (tokens_of h r) ≡ true
  pub from_ref :
      (t h : Text) → holds t (tokens_of h r) ≡ true → Map.get t r.token_to_handle ≡ some h

get-remove_tokens :
    (t : Text) (ts : List Text) (m : HashMap Text Text)
    → Map.get t (remove_tokens ts m) ≡ (if holds t ts then none else Map.get t m)
get-remove_tokens t [] m = refl
get-remove_tokens t (u ∷ ts) m =
    ground (arith, get-remove_tokens t ts (Map.remove u m), Map.get-remove u t m)

holds-set_insert :
    (t u : Text) (ts : List Text) → holds t (set_insert u ts) ≡ (text_eq t u || holds t ts)
holds-set_insert t u ts = ground (arith, any-append (text_eq t) ts (u ∷ []), holds_same ts)
  where
    holds_same : (xs : List Text) → t ≡ u → holds u xs ≡ holds t xs
    holds_same xs e = ap (λ x. holds x xs) (sym e)

pub holds-set_remove :
    (t u : Text) (ts : List Text) → holds t (set_remove u ts) ≡ (not (text_eq u t) && holds t ts)
holds-set_remove t u [] = ground arith
holds-set_remove t u (x ∷ ts) = ground (arith, holds-set_remove t u ts)

length-set_remove_le : (u : Text) (ts : List Text) → length (set_remove u ts) ≤ length ts
length-set_remove_le u [] = ground arith
length-set_remove_le u (x ∷ ts) = ground (arith, length-set_remove_le u ts)

pub length-set_remove_lt :
    (u : Text) (ts : List Text) → holds u ts ≡ true → length (set_remove u ts) < length ts
length-set_remove_lt u [] h = absurd (ground arith)
length-set_remove_lt u (x ∷ ts) h =
    ground (arith, length-set_remove_lt u ts, length-set_remove_le u ts)

-- The references of a handle, when another entry of the table has changed.
tokens-insert :
    (h g : Text) (ts : List Text) (m : HashMap Text (List Text))
    → unwrap_or (Map.get g (Map.insert h ts m)) []
      ≡ ite (text_discrete h g) ts (unwrap_or (Map.get g m) [])
tokens-insert h g ts m = ground (arith, Map.get-insert h g ts m)

tokens-remove :
    (h g : Text) (m : HashMap Text (List Text))
    → unwrap_or (Map.get g (Map.remove h m)) []
      ≡ ite (text_discrete h g) [] (unwrap_or (Map.get g m) [])
tokens-remove h g m = ground (arith, Map.get-remove h g m)

-- Only the two tables matter.
pub Agree-of :
    (r s : RouterInner)
    → s.token_to_handle ≡ r.token_to_handle
    → s.ref_tokens ≡ r.ref_tokens
    → Agree r
    → Agree s
Agree-of r s et er v = record {
  to_ref = λ t h at.
      subst (λ m. holds t (unwrap_or (Map.get h m) []) ≡ true) (sym er)
        (v.to_ref t h (subst (λ m. Map.get t m ≡ some h) et at));
  from_ref = λ t h held.
      subst (λ m. Map.get t m ≡ some h) (sym et)
        (v.from_ref t h (subst (λ m. holds t (unwrap_or (Map.get h m) []) ≡ true) er held));
}

-- A new reference under a token that is not in use.
pub add_ref-Agree :
    (token h : Text) (r : RouterInner)
    → Agree r
    → Map.get token r.token_to_handle ≡ none
    → Agree (add_ref token h r)
unfolding add_ref
add_ref-Agree token h r v fresh = record {
  to_ref = λ t g at. ground (
    arith,
    at,
    Map.get-insert token t h r.token_to_handle,
    tokens-insert h g (set_insert token (tokens_of h r)) r.ref_tokens,
    holds-set_insert t token (tokens_of h r),
    v.to_ref t g,
  );
  from_ref = λ t g held. ground (
    arith,
    held,
    Map.get-insert token t h r.token_to_handle,
    tokens-insert h g (set_insert token (tokens_of h r)) r.ref_tokens,
    holds-set_insert t token (tokens_of h r),
    v.from_ref t g,
    v.from_ref token g,
  );
}

module _ (h : Text) (r : RouterInner) (v : Agree r) (ts : List Text)
    (held : Map.get h r.ref_tokens ≡ some ts) where
  dropped : RouterInner
  dropped = record r {
    ref_tokens = Map.remove h r.ref_tokens;
    token_to_handle = remove_tokens ts r.token_to_handle;
  }

  dropped-Agree : Agree dropped
  unfolding dropped
  dropped-Agree = record {
    to_ref = λ t g at. ground (
      arith,
      at,
      held,
      get-remove_tokens t ts r.token_to_handle,
      tokens-remove h g r.ref_tokens,
      v.to_ref t g,
    );
    from_ref = λ t g keeps. ground (
      arith,
      keeps,
      held,
      get-remove_tokens t ts r.token_to_handle,
      tokens-remove h g r.ref_tokens,
      v.from_ref t g,
      v.from_ref t h,
    );
  }

pub drop_tokens-Agree : (h : Text) (r : RouterInner) → Agree r → Agree (drop_tokens h r)
unfolding drop_tokens dropped
drop_tokens-Agree h r v = elim (Option-cases (Map.get h r.ref_tokens)) [
  | inl e ↦ rw (e, drop_tokens) v
  | inr (ts, e) ↦ rw (e, drop_tokens) (dropped-Agree h r v ts e)
]

-- After its worker is gone no token leads to a handle.
pub drop_tokens_none :
    (h t : Text) (r : RouterInner) → Agree r → Map.get t (drop_tokens h r).token_to_handle ≢ some h
unfolding drop_tokens
drop_tokens_none h t r v at = elim (Option-cases (Map.get h r.ref_tokens)) [
  | inl e ↦ absurd (ground (arith, v.to_ref t h))
  | inr (ts, e) ↦ absurd (ground (arith, v.to_ref t h, get-remove_tokens t ts r.token_to_handle))
]

pub release-Agree : (token : Text) (r : RouterInner) → Agree r → Agree (release_ref_token token r).0
unfolding release_ref_token release_from
release-Agree token r v = elim (Option-cases (Map.get token r.token_to_handle)) [
  | inl e ↦ rw (e, release_ref_token) v
  | inr (h, e) ↦ elim (Option-cases (Map.get h r.ref_tokens)) [
    | inl unheld ↦ absurd (ground (arith, v.to_ref token h))
    | inr (ts, held) ↦
        rw (e, release_ref_token)
          (rw (held, release_from)
            (record {
              to_ref = λ t g at. ground (
                arith,
                at,
                held,
                Map.get-remove token t r.token_to_handle,
                tokens-insert h g (set_remove token ts) r.ref_tokens,
                holds-set_remove t token ts,
                v.to_ref t g,
              );
              from_ref = λ t g keeps. ground (
                arith,
                keeps,
                held,
                Map.get-remove token t r.token_to_handle,
                tokens-insert h g (set_remove token ts) r.ref_tokens,
                holds-set_remove t token ts,
                v.from_ref t g,
                v.from_ref token g,
              );
            }))
  ]
]
