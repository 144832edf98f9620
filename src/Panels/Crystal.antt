-- ===== src/Panels/Crystal.antt =====
-- portal-svelte/src/lib/components/panels/CrystalPanel.svelte: the Crystal gateway.
use polyglot_infinity.Prelude.{
  ℕ, ◌≡◌, refl, Bool, true, false, not, ◌&&◌, Option, some, List, [], ◌∷◌, if◌then◌else◌, arith,
  codes,
}
use polyglot_infinity.Js.Value.{Json, null, obj}
use polyglot_infinity.Js.Spread.{set_field, spread}
use polyglot_infinity.Js.Async.{Response, Async, ret, raise, bind, assign, fetch_all, json, is_ok}
use polyglot_infinity.Js.Async.Laws.{IsQuiet, bind-IsQuiet, fetch_all-IsQuiet, json-IsQuiet}
use polyglot_infinity.Panels.Machine.{Panel, NoEdit}
use polyglot_infinity.Panels.Machine.Laws.{IsDown, Starts, IsLawful}
use polyglot_infinity.Panels.Setting.{Setting, api}
use polyglot_infinity.Panels.Shape.{error_value, with_loading, fetch_or}
use polyglot_infinity.Panels.Shape.Laws.{with_loading-Starts, fetch_or-IsQuiet, if-IsQuiet}

pub record CrystalState (Num : Type 0) : Type 0 where
  pub crystal_data : Json Num
  pub crystal_loading : Bool
  pub crystal_stats : Json Num
  pub stats_loading : Bool

-- The buttons.
pub data CrystalAction : Type 0 where
  on_run_crystal on_run_crystal_stats : CrystalAction

module _ {Num : Type 0} (js : Setting Num) where
  abbrev pub crystal_initial : CrystalState Num
  crystal_initial = record {
    crystal_data = null;
    crystal_loading = false;
    crystal_stats = null;
    stats_loading = false;
  }

  -- `concRes.ok ? await concRes.json() : null`.
  abbrev pub json_or_null : Response Num → Async Num (CrystalState Num) (Json Num)
  json_or_null res = if is_ok res then json res else ret null

  -- `runCrystal` behind its requests.
  unfoldable pub crystal_answers : List (Response Num) → Async Num (CrystalState Num) (Unit {0})
  unfolding set_field spread
  crystal_answers (pf_res ∷ fx_res ∷ conc_res ∷ []) =
      if is_ok pf_res && is_ok fx_res
      then (bind (json pf_res) (λ pf. bind (json fx_res) (λ fx.
          bind (json_or_null conc_res) (λ conc. assign (λ s. record s {
            crystal_data =
                obj (set_field (codes "conc") conc (set_field (codes "fx") fx (spread pf)));
          })))))
      else assign (λ s. record s { crystal_data = error_value (codes "Crystal 게이트웨이 오프라인") })
  crystal_answers _ = raise []

  unfoldable pub run_crystal : Async Num (CrystalState Num) (Unit {0})
  unfolding crystal_answers
  run_crystal =
      with_loading (λ b s. record s { crystal_loading = b }) (λ s. record s { crystal_data = null })
        (bind
          (fetch_all (
            api js (codes "/api/crystal/portfolio?mu=0.12&sigma=0.18&days=252" ∷ [])
            ∷ api js (codes "/api/crystal/fx" ∷ [])
            ∷ api js (codes "/api/crystal/concurrent" ∷ [])
            ∷ []))
          crystal_answers)
        (λ s. record s { crystal_data = error_value (codes "Crystal 서버 접속 불가 (:9002)") })

  unfoldable pub run_crystal_stats : Async Num (CrystalState Num) (Unit {0})
  run_crystal_stats =
      with_loading (λ b s. record s { stats_loading = b }) (λ s. record s { crystal_stats = null })
        (fetch_or (λ v s. record s { crystal_stats = v }) (api js (codes "/api/crystal/stats" ∷ []))
          (codes "Crystal stats offline"))
        (λ s. record s { crystal_stats = error_value (codes "Crystal 서버 접속 불가 (:9002)") })

  abbrev crystal_flag_of : CrystalAction → Option ℕ
  crystal_flag_of on_run_crystal = some 0
  crystal_flag_of on_run_crystal_stats = some 1

  -- The `disabled` attributes.
  abbrev pub crystal_enabled : CrystalAction → CrystalState Num → Bool
  crystal_enabled on_run_crystal s = not s.crystal_loading
  crystal_enabled on_run_crystal_stats s = not s.stats_loading

  abbrev crystal_body : CrystalAction → Async Num (CrystalState Num) (Unit {0})
  crystal_body on_run_crystal = run_crystal
  crystal_body on_run_crystal_stats = run_crystal_stats

  abbrev pub crystal_flags : CrystalState Num → List Bool
  crystal_flags s = s.crystal_loading ∷ s.stats_loading ∷ []

  abbrev pub crystal_panel : Panel Num
  crystal_panel = record {
    State = CrystalState Num;
    Action = CrystalAction;
    Edit = NoEdit;
    initial = crystal_initial;
    flags = crystal_flags;
    flag_of = crystal_flag_of;
    enabled = crystal_enabled;
    body = crystal_body;
    edit = λ e s. s;
  }

  json_or_null-IsQuiet : (res : Response Num) → IsQuiet crystal_flags (json_or_null res)
  unfolding IsQuiet
  json_or_null-IsQuiet res =
      if-IsQuiet Num crystal_flags (is_ok res) _ _ (json-IsQuiet Num crystal_flags res) tt

  crystal_answers-IsQuiet : (rs : List (Response Num)) → IsQuiet crystal_flags (crystal_answers rs)
  unfolding crystal_answers IsQuiet
  crystal_answers-IsQuiet [] = tt
  crystal_answers-IsQuiet (a ∷ []) = tt
  crystal_answers-IsQuiet (a ∷ b ∷ []) = tt
  crystal_answers-IsQuiet (a ∷ b ∷ c ∷ []) =
      if-IsQuiet Num crystal_flags (is_ok a && is_ok b) _ _
        (bind-IsQuiet crystal_flags _ _ (json-IsQuiet Num crystal_flags a) (λ pf.
          bind-IsQuiet crystal_flags _ _ (json-IsQuiet Num crystal_flags b) (λ fx.
            bind-IsQuiet crystal_flags _ _ (json_or_null-IsQuiet c) (λ conc. ((λ s. refl), tt)))))
        ((λ s. refl), tt)
  crystal_answers-IsQuiet (a ∷ b ∷ c ∷ d ∷ rs) = tt

  crystal-disabled :
      (a : CrystalAction) (s : CrystalState Num)
      → crystal_enabled a s ≡ true
      → IsDown (crystal_flag_of a) (crystal_flags s)
  crystal-disabled on_run_crystal s e = (ground arith, omega arith)
  crystal-disabled on_run_crystal_stats s e = (ground arith, omega arith)

  crystal-Starts : (a : CrystalAction) → Starts crystal_flags (crystal_flag_of a) (crystal_body a)
  unfolding run_crystal run_crystal_stats
  crystal-Starts on_run_crystal =
      with_loading-Starts Num crystal_flags 0 _ _ _ _ (λ b s. refl) (λ s. refl)
        (bind-IsQuiet crystal_flags _ _ (fetch_all-IsQuiet Num crystal_flags _)
          crystal_answers-IsQuiet)
        (λ s. refl)
  crystal-Starts on_run_crystal_stats =
      with_loading-Starts Num crystal_flags 1 _ _ _ _ (λ b s. refl) (λ s. refl)
        (fetch_or-IsQuiet Num crystal_flags _ _ _ (λ v s. refl)) (λ s. refl)

  pub crystal_panel-IsLawful : IsLawful crystal_panel
  crystal_panel-IsLawful = record {
    disabled = crystal-disabled;
    idle = (refl, (refl, tt));
    edits = λ e s. refl;
    starts = crystal-Starts;
  }
