-- ===== src/Search/Consistency.antt =====
-- What the effects and the answers of frontend/src/components/client/search/search-combobox.tsx keep.
use mathlib.Core.Path.{subst}
use jolarca.Common.{
  ℕ, suc, ◌≤◌, ◌<◌, String, ◌≡◌, refl, Bool, true, false, not, inl, inr, Option, none, some, List,
  [], ◌∷◌, ◌is◌, if-either, if-cases, arith, Option-cases, ◌==◌,
}
use jolarca.Common.Int.{ℤ, pos, negsuc, ◌+ℤ◌, ◌-ℤ◌, pos_part, neg_part, min_ℤ, max_ℤ}
use jolarca.Common.Lists.{pick, ArePicked, pick-ArePicked, length, All, All-append}
use jolarca.Errors.{Result, ok, throw}
use jolarca.Cart.Item.{is_contract_pending}
use jolarca.Search.Recent.{read_recent_searches}
use jolarca.Search.Palette.{
  Suggestions, PaletteItem, Palette, ask, rebuild, set_open, set_value, close,
}
use jolarca.Search.PaletteEvents.{send, drop_suggestions, elapse, accept, settle, arrow}

-- A request in an open palette: an earlier one, or one for the text that is typed.
abbrev pub IsFair : (is_open : Bool) (latest : ℕ) (value : String) → ℕ × String → Type 0
IsFair is_open latest value (id, text) =
    (id ≤ latest) × (is_open ≡ true → id ≡ latest → text ≡ value)

abbrev pub IsFairTimer :
    (is_open : Bool) (latest : ℕ) (value : String) → Option (ℕ × String) → Type 0
IsFairTimer is_open latest value none = Unit
IsFairTimer is_open latest value (some request) = IsFair is_open latest value request

-- The active item is one of those listed, if any is.
abbrev pub IsListed : ℤ → List PaletteItem → Type 0
IsListed index [] = Unit
IsListed (pos n) (item ∷ items) = n < suc (length items)
IsListed (negsuc n) (item ∷ items) = ⊥

-- The requests that wait or are outstanding.
pub record AreFair (p : Palette) : Type 0 where
  pub asked : All (IsFair p.is_open p.request_id p.value) p.in_flight
  pub waiting : IsFairTimer p.is_open p.request_id p.value p.timer

pub record IsConsistent (p : Palette) : Type 0 where
  pub fair : AreFair p
  pub listed : IsListed p.active_index p.items

IsListed-zero : (items : List PaletteItem) → IsListed (pos 0) items
IsListed-zero [] = tt
IsListed-zero (item ∷ items) = omega arith

-- Requests made before the latest one.
All-earlier :
    (is_open is_open' : Bool) (latest : ℕ) (value value' : String) (requests : List (ℕ × String))
    → All (IsFair is_open latest value) requests
    → All (IsFair is_open' (suc latest) value') requests
All-earlier is_open is_open' latest value value' [] h = tt
All-earlier is_open is_open' latest value value' ((id, text) ∷ requests) ((le, same), h) = (
  (omega arith, λ o e. absurd (omega arith)),
  All-earlier is_open is_open' latest value value' requests h,
)

All-closed :
    (is_open is_open' : Bool) (latest : ℕ) (value value' : String) (requests : List (ℕ × String))
    → is_open' ≡ false
    → All (IsFair is_open latest value) requests
    → All (IsFair is_open' latest value') requests
All-closed is_open is_open' latest value value' [] c h = tt
All-closed is_open is_open' latest value value' ((id, text) ∷ requests) c ((le, same), h) =
    ((le, λ o e. absurd (cc)), All-closed is_open is_open' latest value value' requests c h)

pub IsListed-below : (n : ℕ) (items : List PaletteItem) → n < length items → IsListed (pos n) items
IsListed-below n [] h = tt
IsListed-below n (item ∷ items) h = omega arith

IsListed-parts :
    (index : ℤ) (item : PaletteItem) (items : List PaletteItem)
    → neg_part index ≡ 0
    → pos_part index ≤ length items
    → IsListed index (item ∷ items)
IsListed-parts (pos n) item items h k = omega arith
IsListed-parts (negsuc n) item items h k = absurd (omega arith)

IsListed-down :
    (items : List PaletteItem) (index : ℤ)
    → IsListed index items
    → IsListed (min_ℤ (pos (length items) -ℤ pos 1) (index +ℤ pos 1)) items
unfolding ◌+ℤ◌ ◌-ℤ◌
IsListed-down [] index h = tt
IsListed-down (item ∷ items) (pos n) h = IsListed-parts _ item items (ground arith) (ground arith)
IsListed-down (item ∷ items) (negsuc n) h = absurd h

IsListed-up :
    (items : List PaletteItem) (index : ℤ)
    → IsListed index items
    → IsListed (max_ℤ (pos 0) (index -ℤ pos 1)) items
unfolding ◌-ℤ◌
IsListed-up [] index h = tt
IsListed-up (item ∷ items) (pos n) h = IsListed-parts _ item items (ground arith) (ground arith)
IsListed-up (item ∷ items) (negsuc n) h = absurd h

pub send-IsConsistent :
    (timer : Option (ℕ × String)) (p : Palette)
    → IsConsistent p
    → IsFairTimer p.is_open p.request_id p.value timer
    → IsConsistent (send timer p)
send-IsConsistent none p h w = h
send-IsConsistent (some request) p h w = record {
  fair = record {
    asked =
        All-append (IsFair p.is_open p.request_id p.value) p.in_flight (request ∷ []) h.fair.asked
          (w, tt);
    waiting = tt;
  };
  listed = h.listed;
}

pub elapse-IsConsistent : (p : Palette) → IsConsistent p → IsConsistent (elapse p)
unfolding elapse
elapse-IsConsistent p h = send-IsConsistent p.timer p h h.fair.waiting

module _ (run_label : String → String) where
  -- After the effect all requests are fair, whatever the text was before, and whether it was open.
  ask-AreFair :
      (was_open : Bool) (was : String) (p : Palette)
      → All (IsFair was_open p.request_id was) p.in_flight
      → AreFair (ask run_label p)
  ask-AreFair was_open was p h =
      if-cases AreFair p.is_open
        (λ o. record {
          asked = All-earlier was_open p.is_open p.request_id was p.value p.in_flight h;
          waiting = (omega arith, λ o e. refl);
        })
        (λ c. record {
          asked = All-closed was_open p.is_open p.request_id was p.value p.in_flight c h;
          waiting = tt;
        })

  rebuild-IsConsistent : (p : Palette) → AreFair p → IsConsistent (rebuild run_label p)
  unfolding rebuild
  rebuild-IsConsistent p h = record {
    fair = record { asked = h.asked; waiting = h.waiting };
    listed = IsListed-zero _;
  }

  rebuild-ask :
      (was_open : Bool) (was : String) (p : Palette)
      → All (IsFair was_open p.request_id was) p.in_flight
      → IsConsistent (rebuild run_label (ask run_label p))
  rebuild-ask was_open was p h =
      rebuild-IsConsistent (ask run_label p) (ask-AreFair was_open was p h)

  pub set_open-IsConsistent :
      (next : Bool) (p : Palette) → IsConsistent p → IsConsistent (set_open run_label next p)
  unfolding set_open
  set_open-IsConsistent true p h = if-either IsConsistent p.is_open h (
      rebuild-ask p.is_open p.value
        (record p { is_open = true; recent = read_recent_searches p.stored }) h.fair.asked)
  set_open-IsConsistent false p h =
      if-either IsConsistent p.is_open
        (record {
          fair = ask-AreFair p.is_open p.value (record p { is_open = false }) h.fair.asked;
          listed = h.listed;
        })
        h

  pub set_value-IsConsistent :
      (next : String) (p : Palette) → IsConsistent p → IsConsistent (set_value run_label next p)
  unfolding set_value
  set_value-IsConsistent next p h =
      if-either IsConsistent (p.value == next) h
        (rebuild-ask p.is_open p.value (record p { value = next }) h.fair.asked)

  pub close-IsConsistent : (p : Palette) → IsConsistent p → IsConsistent (close run_label p)
  unfolding close
  close-IsConsistent p h =
      let closed = set_value-IsConsistent "" _ (set_open-IsConsistent false p h) in
      record {
        fair = record { asked = closed.fair.asked; waiting = closed.fair.waiting };
        listed = IsListed-zero _;
      }

  drop_suggestions-IsConsistent :
      (suggestions : Option Suggestions) (p : Palette)
      → IsConsistent p
      → IsConsistent (drop_suggestions run_label suggestions p)
  drop_suggestions-IsConsistent none p h = h
  drop_suggestions-IsConsistent (some s) p h =
      rebuild-IsConsistent (record p { suggestions = none })
        (record { asked = h.fair.asked; waiting = h.fair.waiting })

  accept-IsConsistent :
      (answer : Result Suggestions) (p : Palette)
      → IsConsistent p
      → IsConsistent (accept run_label answer p)
  accept-IsConsistent (ok suggestions) p h =
      rebuild-IsConsistent (record p { suggestions = some suggestions; is_unavailable = false })
        (record { asked = h.fair.asked; waiting = h.fair.waiting })
  accept-IsConsistent (throw e) p h =
      drop_suggestions-IsConsistent p.suggestions
        (record p { is_unavailable = not (is_contract_pending e) })
        (record {
          fair = record { asked = h.fair.asked; waiting = h.fair.waiting };
          listed = h.listed;
        })

  pub settle-IsConsistent :
      (n : ℕ) (answer : Result Suggestions) (p : Palette)
      → IsConsistent p
      → IsConsistent (settle run_label n answer p)
  unfolding settle
  settle-IsConsistent n answer p h = elim (Option-cases (pick n p.in_flight)) [
    | inl missing ↦ rw (missing, settle) h
    | inr (((id, value), others), found) ↦
        let (mine, rest) =
          subst (ArePicked (IsFair p.is_open p.request_id p.value)) found
            (pick-ArePicked (IsFair p.is_open p.request_id p.value) n p.in_flight h.fair.asked) in
        let answered : IsConsistent (record p { in_flight = others }) = record {
          fair = record { asked = rest; waiting = h.fair.waiting };
          listed = h.listed;
        } in
        rw (found, settle)
          (if-either IsConsistent (p.request_id is id)
            (accept-IsConsistent answer (record p { in_flight = others }) answered) answered)
  ]

  pub arrow-IsConsistent :
      (down : Bool) (p : Palette) → IsConsistent p → IsConsistent (arrow down p)
  unfolding arrow
  arrow-IsConsistent true p h = record {
    fair = record { asked = h.fair.asked; waiting = h.fair.waiting };
    listed = IsListed-down p.items p.active_index h.listed;
  }
  arrow-IsConsistent false p h = record {
    fair = record { asked = h.fair.asked; waiting = h.fair.waiting };
    listed = IsListed-up p.items p.active_index h.listed;
  }
