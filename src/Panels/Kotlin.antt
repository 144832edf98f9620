-- ===== src/Panels/Kotlin.antt =====
-- portal-svelte/src/lib/components/panels/KotlinPanel.svelte: the reports of the Kotlin scheduler.
use polyglot_infinity.Prelude.{
  ℕ, ◌≡◌, refl, Bool, true, false, not, Option, none, some, List, [], ◌∷◌, if◌then◌else◌, arith,
  codes,
}
use polyglot_infinity.Js.Value.{Json, null, str, arr, items}
use polyglot_infinity.Js.Async.{Async, bind, try_catch, assign, fetch, json, is_ok}
use polyglot_infinity.Js.Async.Laws.{
  IsQuiet, bind-IsQuiet, try_catch-IsQuiet, try_catch-IsCalm, assign-IsQuiet, assign-IsCalm,
  fetch-IsQuiet, json-IsQuiet,
}
use polyglot_infinity.Panels.Machine.{Panel, NoEdit}
use polyglot_infinity.Panels.Machine.Laws.{IsDown, Starts, IsLawful}
use polyglot_infinity.Panels.Setting.{Setting, api}
use polyglot_infinity.Panels.Shape.{with_loading}
use polyglot_infinity.Panels.Shape.Laws.{with_loading-Starts, if-IsQuiet}

pub record KotlinState (Num : Type 0) : Type 0 where
  pub reports : Json Num
  pub generating : Bool
  pub gen_msg : Json Num

-- The buttons.
pub data KotlinAction : Type 0 where
  on_fetch_reports on_generate_now : KotlinAction

module _ {Num : Type 0} (js : Setting Num) where
  abbrev pub kotlin_initial : KotlinState Num
  kotlin_initial = record { reports = null; generating = false; gen_msg = null }

  unfoldable pub fetch_reports : Async Num (KotlinState Num) (Unit {0})
  unfolding try_catch
  fetch_reports =
      try_catch
        (bind (fetch (api js (codes "/api/reports/latest" ∷ []))) (λ res.
          if is_ok res
          then bind (json res) (λ v. assign (λ s. record s { reports = v }))
          else assign (λ s. record s { reports = arr (items []) })))
        (λ m. assign (λ s. record s { reports = null }))

  unfoldable pub generate_now : Async Num (KotlinState Num) (Unit {0})
  unfolding fetch_reports
  generate_now =
      with_loading (λ b s. record s { generating = b }) (λ s. record s { gen_msg = null })
        (bind (fetch (api js (codes "/api/reports/now" ∷ []))) (λ res.
          if is_ok res
          then bind (assign (λ s. record s { gen_msg = str (codes "리포트 즉시 생성 완료") }))
              (λ u. fetch_reports)
          else assign (λ s. record s { gen_msg = str (codes "생성 실패") })))
        (λ s. record s { gen_msg = str (codes "Kotlin 서버 접속 불가 (:9000)") })

  abbrev kotlin_flag_of : KotlinAction → Option ℕ
  kotlin_flag_of on_fetch_reports = none
  kotlin_flag_of on_generate_now = some 0

  -- The `disabled` attributes.
  abbrev pub kotlin_enabled : KotlinAction → KotlinState Num → Bool
  kotlin_enabled on_fetch_reports s = true
  kotlin_enabled on_generate_now s = not s.generating

  abbrev kotlin_body : KotlinAction → Async Num (KotlinState Num) (Unit {0})
  kotlin_body on_fetch_reports = fetch_reports
  kotlin_body on_generate_now = generate_now

  abbrev pub kotlin_flags : KotlinState Num → List Bool
  kotlin_flags s = s.generating ∷ []

  abbrev pub kotlin_panel : Panel Num
  kotlin_panel = record {
    State = KotlinState Num;
    Action = KotlinAction;
    Edit = NoEdit;
    initial = kotlin_initial;
    flags = kotlin_flags;
    flag_of = kotlin_flag_of;
    enabled = kotlin_enabled;
    body = kotlin_body;
    edit = λ e s. s;
  }

  fetch_reports-IsQuiet : IsQuiet kotlin_flags fetch_reports
  unfolding fetch_reports
  fetch_reports-IsQuiet =
      try_catch-IsQuiet kotlin_flags _ _
        (bind-IsQuiet kotlin_flags _ _ (fetch-IsQuiet Num kotlin_flags _) (λ res.
          if-IsQuiet Num kotlin_flags (is_ok res) _ _
            (bind-IsQuiet kotlin_flags _ _ (json-IsQuiet Num kotlin_flags res)
              (λ v. assign-IsQuiet Num kotlin_flags _ (λ s. refl)))
            (assign-IsQuiet Num kotlin_flags _ (λ s. refl))))
        (λ m. assign-IsQuiet Num kotlin_flags _ (λ s. refl))

  kotlin-disabled :
      (a : KotlinAction) (s : KotlinState Num)
      → kotlin_enabled a s ≡ true
      → IsDown (kotlin_flag_of a) (kotlin_flags s)
  kotlin-disabled on_fetch_reports s e = tt
  kotlin-disabled on_generate_now s e = (ground arith, omega arith)

  kotlin-Starts : (a : KotlinAction) → Starts kotlin_flags (kotlin_flag_of a) (kotlin_body a)
  unfolding fetch_reports generate_now
  kotlin-Starts on_fetch_reports =
      try_catch-IsCalm kotlin_flags _ _
        (bind-IsQuiet kotlin_flags _ _ (fetch-IsQuiet Num kotlin_flags _) (λ res.
          if-IsQuiet Num kotlin_flags (is_ok res) _ _
            (bind-IsQuiet kotlin_flags _ _ (json-IsQuiet Num kotlin_flags res)
              (λ v. assign-IsQuiet Num kotlin_flags _ (λ s. refl)))
            (assign-IsQuiet Num kotlin_flags _ (λ s. refl))))
        (λ m. assign-IsCalm Num kotlin_flags _ (λ s. refl))
  kotlin-Starts on_generate_now =
      with_loading-Starts Num kotlin_flags 0 _ _ _ _ (λ b s. refl) (λ s. refl)
        (bind-IsQuiet kotlin_flags _ _ (fetch-IsQuiet Num kotlin_flags _) (λ res.
          if-IsQuiet Num kotlin_flags (is_ok res) _ _
            (bind-IsQuiet kotlin_flags _ _ (assign-IsQuiet Num kotlin_flags _ (λ s. refl))
              (λ u. fetch_reports-IsQuiet))
            (assign-IsQuiet Num kotlin_flags _ (λ s. refl))))
        (λ s. refl)

  pub kotlin_panel-IsLawful : IsLawful kotlin_panel
  kotlin_panel-IsLawful = record {
    disabled = kotlin-disabled;
    idle = (refl, tt);
    edits = λ e s. refl;
    starts = kotlin-Starts;
  }
