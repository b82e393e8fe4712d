-- ===== src/Api/Filing/Lifecycle.antt =====
-- The life of a stored invoice, as a step relation on what its row holds: nothing, or a record.
use moadian.Base.{◌≡◌, refl, sym, ◌∙◌, ap, subst, true, false, Option, none, some, ◌⊎◌, inl, inr}
use moadian.Store.Invoices.{
  InvoiceState, sent, confirmed, rejected, cancelled, InvoiceRecord, is_given,
}
use moadian.Api.Invoices.{is_editable}

-- The states that an answer of the organization leads to, from the state before. An answer that is
-- no verdict keeps the state, or writes `sent` back from a list that was read before.
abbrev pub IsVerdict : InvoiceState → InvoiceState → Type 0
IsVerdict before after =
    (after ≡ before) ⊎ ((after ≡ sent) ⊎ ((after ≡ confirmed) ⊎ (after ≡ rejected)))

-- The states in which a record is written by the one who types it.
abbrev pub Opens : InvoiceState → Type 0
Opens s = (is_editable s ≡ true) ⊎ (s ≡ sent)

verdict_filed :
    (before after : InvoiceState)
    → IsVerdict before after
    → is_editable before ≡ false
    → is_editable after ≡ false
verdict_filed before after (inl e) h = ap is_editable e ∙ h
verdict_filed before after (inr (inl e)) h = ap is_editable e
verdict_filed before after (inr (inr (inl e))) h = ap is_editable e
verdict_filed before after (inr (inr (inr e))) h = ap is_editable e

true_ne_false : true ≡ false → ⊥
true_ne_false e = cc

module _ {F : Type 0} where
  -- What was filed: all that a later change of state leaves alone.
  pub record SameFiling (r r' : InvoiceRecord F) : Type 0 where
    pub same_profile : r'.profile ≡ r.profile
    pub same_payload : r'.payload ≡ r.payload
    pub same_tax_id : r'.tax_id ≡ r.tax_id
    pub same_uid : r'.uid ≡ r.uid
    pub same_reference : r'.reference_number ≡ r.reference_number

  pub SameFiling-refl : (r : InvoiceRecord F) → SameFiling r r
  SameFiling-refl r = record {
    same_profile = refl;
    same_payload = refl;
    same_tax_id = refl;
    same_uid = refl;
    same_reference = refl;
  }

  pub SameFiling-trans :
      (a b d : InvoiceRecord F) → SameFiling a b → SameFiling b d → SameFiling a d
  SameFiling-trans a b d h k = record {
    same_profile = k.same_profile ∙ h.same_profile;
    same_payload = k.same_payload ∙ h.same_payload;
    same_tax_id = k.same_tax_id ∙ h.same_tax_id;
    same_uid = k.same_uid ∙ h.same_uid;
    same_reference = k.same_reference ∙ h.same_reference;
  }

  -- One change of a row.
  pub data Step (a b : Option (InvoiceRecord F)) : Type 0 where
    created : (r : InvoiceRecord F) → a ≡ none → b ≡ some r → Opens r.state → Step a b
    edited :
        (r r' : InvoiceRecord F)
        → a ≡ some r
        → b ≡ some r'
        → is_editable r.state ≡ true
        → Opens r'.state
        → r'.profile ≡ r.profile
        → Step a b
    discarded :
        (r : InvoiceRecord F) → a ≡ some r → b ≡ none → is_editable r.state ≡ true → Step a b
    judged :
        (r r' : InvoiceRecord F)
        → a ≡ some r
        → b ≡ some r'
        → is_given r.reference_number ≡ true
        → IsVerdict r.state r'.state
        → SameFiling r r'
        → Step a b
    cancelled_by_other :
        (r r' : InvoiceRecord F)
        → a ≡ some r
        → b ≡ some r'
        → r'.state ≡ cancelled
        → SameFiling r r'
        → Step a b

  -- Any number of changes.
  pub data Reach (a : Option (InvoiceRecord F)) : Option (InvoiceRecord F) → Type 0 where
    start : Reach a a
    next : {b d : Option (InvoiceRecord F)} → Reach a b → Step b d → Reach a d

  pub Reach-trans : {a b d : Option (InvoiceRecord F)} → Reach a b → Reach b d → Reach a d
  Reach-trans h start = h
  Reach-trans h (next k st) = next (Reach-trans h k) st

  pub Reach-one : {a b : Option (InvoiceRecord F)} → Step a b → Reach a b
  Reach-one st = next start st

  -- A row that holds a filed invoice: `r`, up to its state and detail.
  abbrev pub Filed : InvoiceRecord F → Option (InvoiceRecord F) → Type 0
  Filed r o =
      (r' : InvoiceRecord F) × (o ≡ some r') × (is_editable r'.state ≡ false) × SameFiling r r'

  pub some_injective : {r r' : InvoiceRecord F} → some r ≡ some r' → r ≡ r'
  some_injective {r} {r'} e =
      ap (λ (o : Option (InvoiceRecord F)). elim o [ none ↦ r | some x ↦ x ]) e

  none_ne_some : {r : InvoiceRecord F} → none ≡ some r → ⊥
  none_ne_some e = cc

  Step-Filed :
      {r : InvoiceRecord F} {a b : Option (InvoiceRecord F)} → Filed r a → Step a b → Filed r b
  Step-Filed (q, is_q, fixed, same) (created n e k op) = absurd (none_ne_some (sym e ∙ is_q))
  Step-Filed (q, is_q, fixed, same) (edited x y e k ed op pr) = absurd (
      true_ne_false (
        sym ed
        ∙ ap (λ (z : InvoiceRecord F). is_editable z.state) (some_injective (sym e ∙ is_q))
        ∙ fixed))
  Step-Filed (q, is_q, fixed, same) (discarded x e k ed) = absurd (
      true_ne_false (
        sym ed
        ∙ ap (λ (z : InvoiceRecord F). is_editable z.state) (some_injective (sym e ∙ is_q))
        ∙ fixed))
  Step-Filed {r} (q, is_q, fixed, same) (judged x y e k ref v s) =
      let x_is : q ≡ x = some_injective (sym is_q ∙ e) in
      (
        y,
        k,
        verdict_filed x.state y.state v
            (ap (λ (z : InvoiceRecord F). is_editable z.state) (sym x_is) ∙ fixed),
        SameFiling-trans r x y (subst (SameFiling r) x_is same) s,
      )
  Step-Filed {r} (q, is_q, fixed, same) (cancelled_by_other x y e k st s) =
      let x_is : q ≡ x = some_injective (sym is_q ∙ e) in
      (y, k, ap is_editable st, SameFiling-trans r x y (subst (SameFiling r) x_is same) s)

  -- No sequence of steps edits, refiles or discards an invoice that is filed.
  pub Reach-Filed :
      {r : InvoiceRecord F} {a b : Option (InvoiceRecord F)} → Filed r a → Reach a b → Filed r b
  Reach-Filed h start = h
  Reach-Filed h (next k st) = Step-Filed (Reach-Filed h k) st
