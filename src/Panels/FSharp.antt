-- ===== src/Panels/FSharp.antt =====
-- portal-svelte/src/lib/components/panels/FSharpPanel.svelte: the tabs of the option pricer, which share one button and one loading flag.
use polyglot_infinity.Prelude.{
  ℕ, ◌≡◌, refl, Bool, true, false, not, ◌&&◌, Option, some, List, [], ◌∷◌, arith, Text, text_eq,
  codes,
}
use polyglot_infinity.Js.Value.{Json, null}
use polyglot_infinity.Js.Async.{Async}
use polyglot_infinity.Js.Async.Laws.{Keeps}
use polyglot_infinity.Panels.Machine.{Panel}
use polyglot_infinity.Panels.Machine.Laws.{IsDown, Starts, IsLawful}
use polyglot_infinity.Panels.Setting.{Setting, api}
use polyglot_infinity.Panels.Shape.{error_value, with_loading, fetch_or}
use polyglot_infinity.Panels.Shape.Laws.{with_loading-Starts, fetch_or-IsQuiet}

pub record FSharpState (Num : Type 0) : Type 0 where
  pub fsharp_option : Json Num
  pub fsharp_iv : Json Num
  pub fsharp_smile : Json Num
  pub fsharp_dcf : Json Num
  pub fsharp_loading : Bool
  pub active_tab : Text

-- The buttons.
pub data FSharpAction : Type 0 where
  on_run_fsharp_option on_run_fsharp_iv on_run_fsharp_smile on_run_fsharp_dcf : FSharpAction

-- The bound inputs.
pub data FSharpEdit (Num : Type 0) : Type 0 where
  bind_active_tab : Text → FSharpEdit Num

module _ {Num : Type 0} (js : Setting Num) where
  abbrev pub fsharp_initial : FSharpState Num
  fsharp_initial = record {
    fsharp_option = null;
    fsharp_iv = null;
    fsharp_smile = null;
    fsharp_dcf = null;
    fsharp_loading = false;
    active_tab = codes "option";
  }

  unfoldable pub run_fsharp_option : Async Num (FSharpState Num) (Unit {0})
  run_fsharp_option =
      with_loading (λ b s. record s { fsharp_loading = b }) (λ s. record s { fsharp_option = null })
        (fetch_or (λ v s. record s { fsharp_option = v })
          (api js (codes "/api/fsharp/option?s=100&k=100&r=0.05&sigma=0.20&t=1.0" ∷ []))
          (codes "F# pricer offline"))
        (λ s. record s { fsharp_option = error_value (codes "F# pricer unreachable") })

  unfoldable pub run_fsharp_iv : Async Num (FSharpState Num) (Unit {0})
  run_fsharp_iv =
      with_loading (λ b s. record s { fsharp_loading = b }) (λ s. record s { fsharp_iv = null })
        (fetch_or (λ v s. record s { fsharp_iv = v })
          (api js
            (codes "/api/fsharp/iv?market_price=10.45&s=100&k=100&r=0.05&t=1.0&type=call" ∷ []))
          (codes "F# pricer offline"))
        (λ s. record s { fsharp_iv = error_value (codes "F# pricer unreachable") })

  unfoldable pub run_fsharp_smile : Async Num (FSharpState Num) (Unit {0})
  run_fsharp_smile =
      with_loading (λ b s. record s { fsharp_loading = b }) (λ s. record s { fsharp_smile = null })
        (fetch_or (λ v s. record s { fsharp_smile = v })
          (api js (
            codes
              "/api/fsharp/smile?s=100&r=0.05&t=1.0&k_min=80&k_max=120&steps=9&atm_vol=0.20&skew=-0.05&curvature=0.10&type=call"
            ∷ []))
          (codes "F# pricer offline"))
        (λ s. record s { fsharp_smile = error_value (codes "F# pricer unreachable") })

  unfoldable pub run_fsharp_dcf : Async Num (FSharpState Num) (Unit {0})
  run_fsharp_dcf =
      with_loading (λ b s. record s { fsharp_loading = b }) (λ s. record s { fsharp_dcf = null })
        (fetch_or (λ v s. record s { fsharp_dcf = v }) (api js (codes "/api/fsharp/dcf" ∷ []))
          (codes "F# pricer offline"))
        (λ s. record s { fsharp_dcf = error_value (codes "F# pricer unreachable") })

  abbrev fsharp_flag_of : FSharpAction → Option ℕ
  fsharp_flag_of on_run_fsharp_option = some 0
  fsharp_flag_of on_run_fsharp_iv = some 0
  fsharp_flag_of on_run_fsharp_smile = some 0
  fsharp_flag_of on_run_fsharp_dcf = some 0

  -- The `disabled` attributes.
  abbrev pub fsharp_enabled : FSharpAction → FSharpState Num → Bool
  fsharp_enabled on_run_fsharp_option s =
      not s.fsharp_loading && text_eq s.active_tab (codes "option")
  fsharp_enabled on_run_fsharp_iv s = not s.fsharp_loading && text_eq s.active_tab (codes "iv")
  fsharp_enabled on_run_fsharp_smile s =
      not s.fsharp_loading && text_eq s.active_tab (codes "smile")
  fsharp_enabled on_run_fsharp_dcf s = not s.fsharp_loading && text_eq s.active_tab (codes "dcf")

  abbrev fsharp_body : FSharpAction → Async Num (FSharpState Num) (Unit {0})
  fsharp_body on_run_fsharp_option = run_fsharp_option
  fsharp_body on_run_fsharp_iv = run_fsharp_iv
  fsharp_body on_run_fsharp_smile = run_fsharp_smile
  fsharp_body on_run_fsharp_dcf = run_fsharp_dcf

  abbrev fsharp_edit : FSharpEdit Num → FSharpState Num → FSharpState Num
  fsharp_edit (bind_active_tab x) s = record s { active_tab = x }

  abbrev pub fsharp_flags : FSharpState Num → List Bool
  fsharp_flags s = s.fsharp_loading ∷ []

  abbrev pub fsharp_panel : Panel Num
  fsharp_panel = record {
    State = FSharpState Num;
    Action = FSharpAction;
    Edit = FSharpEdit Num;
    initial = fsharp_initial;
    flags = fsharp_flags;
    flag_of = fsharp_flag_of;
    enabled = fsharp_enabled;
    body = fsharp_body;
    edit = fsharp_edit;
  }

  fsharp-disabled :
      (a : FSharpAction) (s : FSharpState Num)
      → fsharp_enabled a s ≡ true
      → IsDown (fsharp_flag_of a) (fsharp_flags s)
  fsharp-disabled on_run_fsharp_option s e = (ground arith, omega arith)
  fsharp-disabled on_run_fsharp_iv s e = (ground arith, omega arith)
  fsharp-disabled on_run_fsharp_smile s e = (ground arith, omega arith)
  fsharp-disabled on_run_fsharp_dcf s e = (ground arith, omega arith)

  fsharp-edits : (e : FSharpEdit Num) → Keeps fsharp_flags (fsharp_edit e)
  fsharp-edits (bind_active_tab x) s = refl

  fsharp-Starts : (a : FSharpAction) → Starts fsharp_flags (fsharp_flag_of a) (fsharp_body a)
  unfolding run_fsharp_option run_fsharp_iv run_fsharp_smile run_fsharp_dcf
  fsharp-Starts on_run_fsharp_option =
      with_loading-Starts Num fsharp_flags 0 _ _ _ _ (λ b s. refl) (λ s. refl)
        (fetch_or-IsQuiet Num fsharp_flags _ _ _ (λ v s. refl)) (λ s. refl)
  fsharp-Starts on_run_fsharp_iv =
      with_loading-Starts Num fsharp_flags 0 _ _ _ _ (λ b s. refl) (λ s. refl)
        (fetch_or-IsQuiet Num fsharp_flags _ _ _ (λ v s. refl)) (λ s. refl)
  fsharp-Starts on_run_fsharp_smile =
      with_loading-Starts Num fsharp_flags 0 _ _ _ _ (λ b s. refl) (λ s. refl)
        (fetch_or-IsQuiet Num fsharp_flags _ _ _ (λ v s. refl)) (λ s. refl)
  fsharp-Starts on_run_fsharp_dcf =
      with_loading-Starts Num fsharp_flags 0 _ _ _ _ (λ b s. refl) (λ s. refl)
        (fetch_or-IsQuiet Num fsharp_flags _ _ _ (λ v s. refl)) (λ s. refl)

  pub fsharp_panel-IsLawful : IsLawful fsharp_panel
  fsharp_panel-IsLawful = record {
    disabled = fsharp-disabled;
    idle = (refl, tt);
    edits = fsharp-edits;
    starts = fsharp-Starts;
  }
