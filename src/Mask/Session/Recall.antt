-- ===== src/Mask/Session/Recall.antt =====
-- Recall of internal/relay/mask/session.go, and the agreement of a session's two tables.
use nova_vei.Base.{
  some_inj, ℕ, zero, suc, ◌≡◌, refl, sym, ap, ◌∙◌, true, false, [], Option, none, some, arith,
  Option-cases, inl, inr,
}
use nova_vei.Base.Maps.{Map, get, put, get-put}
use nova_vei.Mask.Bytes.{Bytes, bytes_eq, bytes_beq_iff}
use nova_vei.Mask.Placeholder.{◌>>=◌, is_placeholder, new_token}
use nova_vei.Mask.Placeholder.Tokens.{bind_some}
use nova_vei.Mask.Placeholder.Fresh.{new_token-is_placeholder}
use nova_vei.Mask.Session.{Mapping, lookup, Unnested, unnest, draw_token, register, recall}

-- The two tables agree: what a plain text is replaced by is a placeholder that leads back to it.
pub record Linked (m : Mapping) : Type 0 where
  pub leads_back :
      (text token : Bytes) → get text m.forward ≡ some token → lookup m token ≡ some text
  pub to_placeholder :
      (text token : Bytes) → get text m.forward ≡ some token → is_placeholder token ≡ true

found_new :
    (m : Mapping) (drawn after : Bytes) (again : Option (Bytes × Bytes))
    {out : Option (Bytes × Bytes)}
    → lookup m drawn ≡ none
    → (elim (lookup m drawn) as (λ _. Option (Bytes × Bytes)) [
      | none ↦ some (drawn, after)
      | some dup ↦ again
    ])
      ≡ out
    → some (drawn, after) ≡ out
found_new m drawn after again fresh h = sym (rw fresh refl) ∙ h

found_dup :
    (m : Mapping) (drawn old after : Bytes) (again : Option (Bytes × Bytes))
    {out : Option (Bytes × Bytes)}
    → lookup m drawn ≡ some old
    → (elim (lookup m drawn) as (λ _. Option (Bytes × Bytes)) [
      | none ↦ some (drawn, after)
      | some dup ↦ again
    ])
      ≡ out
    → again ≡ out
found_dup m drawn old after again dup h = sym (rw dup refl) ∙ h

draw_token-is_placeholder :
    (to_upper : Bytes → Bytes) (m : Mapping) (label : Bytes) (tries : ℕ) (last random : Bytes)
    (token rest : Bytes)
    → (tries ≡ 0 → is_placeholder last ≡ true)
    → draw_token to_upper m label tries last random ≡ some (token, rest)
    → is_placeholder token ≡ true
unfolding draw_token
draw_token-is_placeholder to_upper m label zero last random token rest h e =
    rw (sym (ap (λ (t : Bytes × Bytes). t.0) (some_inj e))) (h refl)
draw_token-is_placeholder to_upper m label (suc tries) last random token rest h e =
    let ((drawn, after), ed, hd) = bind_some (new_token to_upper label random) _ e in
    let made = new_token-is_placeholder to_upper label random drawn after ed in
    elim (Option-cases (lookup m drawn)) [
      | inl fresh ↦
          let same = sym (some_inj (found_new m drawn after _ fresh hd)) in
          rw (ap (λ (t : Bytes × Bytes). t.0) same) made
      | inr (old, dup) ↦
          draw_token-is_placeholder to_upper m label tries drawn after token rest (λ z. made)
            (found_dup m drawn old after _ dup hd)
    ]

unnest-plain :
    (m : Mapping) (depth : ℕ) (text : Bytes)
    → is_placeholder text ≡ false
    → unnest m depth text ≡ Unnested.plain text
unfolding unnest
unnest-plain m zero text h = rw h refl
unnest-plain m (suc depth) text h = rw h refl

unnest-token :
    (m : Mapping) (depth : ℕ) (text token : Bytes)
    → is_placeholder token ≡ true
    → lookup m token ≡ some text
    → is_placeholder text ≡ false
    → unnest m (suc depth) token ≡ Unnested.plain text
unfolding unnest
unnest-token m depth text token h e k = rw (h, e) (unnest-plain m depth text k)

recall-known :
    (to_upper : Bytes → Bytes) (original text token label random : Bytes) (m : Mapping)
    → unnest m 5 original ≡ Unnested.plain text
    → get text m.forward ≡ some token
    → recall to_upper original label random m ≡ some (token, m, random)
unfolding recall
recall-known to_upper original text token label random m h e = rw (h, recall, e) refl

recall-new :
    (to_upper : Bytes → Bytes) (original text label random : Bytes) (m : Mapping)
    → unnest m 5 original ≡ Unnested.plain text
    → get text m.forward ≡ none
    → recall to_upper original label random m ≡ (do
      (token, rest) ← draw_token to_upper m label 20 [] random
      some (token, register text token m, rest))
unfolding recall
recall-new to_upper original text label random m h e = rw (h, recall, e) refl

get-put_same : (key v : Bytes) (m : Map Bytes Bytes) → get key (put key v m) ≡ some v
get-put_same key v m = ground (arith, get-put key key v m, bytes_beq_iff key key)

-- What a Recall of a plain text leaves: the text's placeholder, which leads back to the text.
record Recalled (text token : Bytes) (m : Mapping) : Type 0 where
  found : get text m.forward ≡ some token
  back : lookup m token ≡ some text
  made : is_placeholder token ≡ true

recall-Recalled :
    (to_upper : Bytes → Bytes) (text label random : Bytes) (m : Mapping) (token : Bytes)
    (m' : Mapping) (rest : Bytes)
    → Linked m
    → is_placeholder text ≡ false
    → recall to_upper text label random m ≡ some (token, m', rest)
    → Recalled text token m'
unfolding lookup
recall-Recalled to_upper text label random m token m' rest v h e =
    let at = unnest-plain m 5 text h in
    elim (Option-cases (get text m.forward)) [
      | inl miss ↦
          let made = sym (recall-new to_upper text text label random m at miss) ∙ e in
          let ((drawn, after), ed, hd) =
            bind_some (draw_token to_upper m label 20 [] random) _ made in
          let same = some_inj hd in
          let same_token = sym (ap (λ (t : Bytes × Mapping × Bytes). t.0) same) in
          let same_table = sym (ap (λ (t : Bytes × Mapping × Bytes). t.1) same) in
          rw (same_token, same_table)
            (record {
              found = get-put_same text drawn m.forward;
              back = get-put_same drawn text m.reverse;
              made =
                  draw_token-is_placeholder to_upper m label 20 [] random drawn after
                    (λ z. absurd (omega (arith, z))) ed;
            })
      | inr (old, hit) ↦
          let same =
            some_inj (sym (recall-known to_upper text text old label random m at hit) ∙ e) in
          let same_token = sym (ap (λ (t : Bytes × Mapping × Bytes). t.0) same) in
          let same_table = sym (ap (λ (t : Bytes × Mapping × Bytes). t.1) same) in
          rw (same_token, same_table)
            (record {
              found = hit;
              back = v.leads_back text old hit;
              made = v.to_placeholder text old hit;
            })
    ]

-- Once Recall has given a plain text its placeholder, in a table that is consistent, the
-- placeholder looks up to that text, and both the text and the placeholder itself are given the
-- same placeholder again, under any label, with no change to the table and no random byte read.
pub recall-again :
    (to_upper : Bytes → Bytes) (text label random : Bytes) (m : Mapping) (token : Bytes)
    (m' : Mapping) (rest label' random' : Bytes)
    → Linked m
    → is_placeholder text ≡ false
    → recall to_upper text label random m ≡ some (token, m', rest)
    → (lookup m' token ≡ some text)
      × (recall to_upper text label' random' m' ≡ some (token, m', random'))
      × (recall to_upper token label' random' m' ≡ some (token, m', random'))
recall-again to_upper text label random m token m' rest label' random' v h e =
    let r = recall-Recalled to_upper text label random m token m' rest v h e in
    (
      r.back,
      recall-known to_upper text text token label' random' m' (unnest-plain m' 5 text h) r.found,
      recall-known to_upper token text token label' random' m'
          (unnest-token m' 4 text token r.made r.back h) r.found,
    )

-- Registering a text under a placeholder that the table has not keeps the table consistent.
pub register-Linked :
    (text token : Bytes) (m : Mapping)
    → Linked m
    → is_placeholder token ≡ true
    → lookup m token ≡ none
    → Linked (register text token m)
unfolding lookup
register-Linked text token m v h fresh = record {
  leads_back = λ t k e. ground (
    arith,
    e,
    get-put text t token m.forward,
    get-put token k text m.reverse,
    bytes_beq_iff t text,
    bytes_beq_iff k token,
    v.leads_back t k,
    fresh,
  );
  to_placeholder =
      λ t k e. ground (arith, e, get-put text t token m.forward, v.to_placeholder t k, h);
}
