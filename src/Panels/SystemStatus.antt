-- ===== src/Panels/SystemStatus.antt =====
-- portal-svelte/src/lib/components/panels/SystemStatusPanel.svelte: the report, the synchronisation
-- with its interval, and the stream of server-sent events, a step for each event of the browser.
pub mod Laws
use polyglot_infinity.Prelude.{
  ℕ, suc, Bool, true, false, not, ◌&&◌, Option, none, some, List, [], ◌∷◌, ◌++◌, if◌then◌else◌,
  ◌==◌, get_elem?, Text, codes,
}
use polyglot_infinity.Js.Value.{Json, null}
use polyglot_infinity.Js.Async.{Async, raise, bind, try_catch, assign, fetch, json, is_ok}
use polyglot_infinity.Portal.Feed.{member, without}
use polyglot_infinity.Panels.Machine.{
  Rest, finished, crashed, waiting, advance, Answer, resume, remove_at, set_elem,
}
use polyglot_infinity.Panels.Setting.{Setting, api}
use polyglot_infinity.Panels.Shape.{error_value, with_loading, fetch_or}

-- What the requests write to, with the number of calls of the property `onSync`, which the page may
-- give to the panel, and which is taken not to throw.
pub record Fetched (Num : Type 0) : Type 0 where
  pub system_data : Json Num
  pub error_msg : Option Text
  pub report_data : Json Num
  pub report_loading : Bool
  pub syncs : ℕ

-- The other variables of the script; then the browser's side: the intervals that are set, the event
-- sources that were made and those of them that are open, the functions that wait, and whether the
-- panel is there.
pub record SystemStatus (Num : Type 0) : Type 0 where
  pub fetched : Fetched Num
  pub auto_sync : Bool
  pub auto_sync_interval : Option ℕ
  pub aggregate_data : Json Num
  pub sse_source : Option ℕ
  pub sse_connected : Bool
  pub next_timer : ℕ
  pub intervals : List ℕ
  pub made : ℕ
  pub is_open : ℕ → Bool
  pub tasks : List (Async Num (Fetched Num) (Unit {0}))
  pub on_page : Bool

pub data StatusEvent (Num : Type 0) : Type 0 where
  click_auto_sync click_sync click_sse click_report : StatusEvent Num
  -- A function goes on.
  answer : ℕ → Answer Num → StatusEvent Num
  interval on_error : ℕ → StatusEvent Num
  on_message : ℕ → Text → StatusEvent Num
  leave : StatusEvent Num

-- `sseSource?.close()` for the value of `sseSource`.
unfoldable pub close_source : Option ℕ → (ℕ → Bool) → ℕ → Bool
close_source none opens j = opens j
close_source (some i) opens j = if j == i then false else opens j

-- `clearInterval` for the value of `autoSyncInterval`, if it is not null.
unfoldable pub clear_interval : Option ℕ → List ℕ → List ℕ
unfolding without
clear_interval none ts = ts
clear_interval (some t) ts = without t ts

module _ {Num : Type 0} where
  abbrev pub new_status : SystemStatus Num
  new_status = record {
    fetched = record {
      system_data = null;
      error_msg = none;
      report_data = null;
      report_loading = false;
      syncs = 0;
    };
    auto_sync = false;
    auto_sync_interval = none;
    aggregate_data = null;
    sse_source = none;
    sse_connected = false;
    next_timer = 1;
    intervals = [];
    made = 0;
    is_open = λ i. false;
    tasks = [];
    on_page = true;
  }

  unfoldable pub run_report : Setting Num → Async Num (Fetched Num) (Unit {0})
  unfolding with_loading fetch_or
  run_report js =
      with_loading (λ b s. record s { report_loading = b }) (λ s. s)
        (fetch_or (λ v s. record s { report_data = v }) (api js (codes "/api/report" ∷ []))
          (codes "리포트 생성 실패"))
        (λ s. record s { report_data = error_value (codes "Go 허브 접속 불가 (:8080)") })

  -- What is thrown is always an `Error`.
  unfoldable pub sync_system : Setting Num → Async Num (Fetched Num) (Unit {0})
  unfolding bind try_catch
  sync_system js =
      try_catch
        (bind (fetch (api js (codes "/api/status" ∷ []))) (λ res.
          if not (is_ok res)
          then raise (codes "System Offline")
          else bind (json res) (λ v.
            assign (λ s. record s { system_data = v; error_msg = none; syncs = suc s.syncs }))))
        (λ m. assign (λ s. record s { error_msg = some m; system_data = null }))

  -- The functions that wait, with one that was started, and with one that went on.
  unfoldable pub add_rest :
      Rest Num (Fetched Num)
      → List (Async Num (Fetched Num) (Unit {0}))
      → List (Async Num (Fetched Num) (Unit {0}))
  add_rest (waiting t) tasks = tasks ++ t ∷ []
  add_rest _ tasks = tasks

  unfoldable pub set_rest :
      ℕ
      → Rest Num (Fetched Num)
      → List (Async Num (Fetched Num) (Unit {0}))
      → List (Async Num (Fetched Num) (Unit {0}))
  set_rest i (waiting t) tasks = set_elem i t tasks
  set_rest i _ tasks = remove_at i tasks

  abbrev pub add_task : Fetched Num × Rest Num (Fetched Num) → SystemStatus Num → SystemStatus Num
  add_task r w = record w { fetched = r.0; tasks = add_rest r.1 w.tasks }

  abbrev pub set_task :
      ℕ → Fetched Num × Rest Num (Fetched Num) → SystemStatus Num → SystemStatus Num
  set_task i r w = record w { fetched = r.0; tasks = set_rest i r.1 w.tasks }

  abbrev pub start : Async Num (Fetched Num) (Unit {0}) → SystemStatus Num → SystemStatus Num
  start t w = add_task (advance t w.fetched) w

  unfoldable pub toggle_sse : SystemStatus Num → SystemStatus Num
  unfolding close_source
  toggle_sse w =
      if w.sse_connected
      then record w {
        is_open = close_source w.sse_source w.is_open;
        sse_source = none;
        sse_connected = false;
      }
      else record w {
        sse_source = some w.made;
        made = suc w.made;
        is_open = λ j. if j == w.made then true else w.is_open j;
        sse_connected = true;
      }

  -- `sseSource.onmessage` behind `JSON.parse`; `none` where that throws.
  unfoldable pub aggregate : Option (Json Num) → SystemStatus Num → SystemStatus Num
  aggregate none w = w
  aggregate (some v) w = record w { aggregate_data = v }

  -- `sseSource.onerror`.
  unfoldable pub failed : SystemStatus Num → SystemStatus Num
  unfolding close_source
  failed w = record w {
    sse_connected = false;
    is_open = close_source w.sse_source w.is_open;
    sse_source = none;
  }

  unfoldable pub toggle_auto_sync : Setting Num → SystemStatus Num → SystemStatus Num
  unfolding sync_system add_rest advance clear_interval
  toggle_auto_sync js w =
      if not w.auto_sync
      then (let v = start (sync_system js) (record w { auto_sync = true }) in
          record v {
            auto_sync_interval = some v.next_timer;
            next_timer = suc v.next_timer;
            intervals = v.next_timer ∷ v.intervals;
          })
      else record w {
        auto_sync = false;
        intervals = clear_interval w.auto_sync_interval w.intervals;
        auto_sync_interval = none;
      }

  -- `onDestroy`; the variables keep their values.
  unfoldable pub destroy : SystemStatus Num → SystemStatus Num
  unfolding clear_interval close_source
  destroy w = record w {
    intervals = clear_interval w.auto_sync_interval w.intervals;
    is_open = close_source w.sse_source w.is_open;
    on_page = false;
  }

  -- `JSON.parse` is a parameter.
  module _ (js : Setting Num) (parse : Text → Option (Json Num)) where
    -- Events that the browser does not send leave everything as it is.
    unfoldable pub step : SystemStatus Num → StatusEvent Num → SystemStatus Num
    unfolding run_report sync_system add_rest set_rest toggle_sse aggregate failed toggle_auto_sync
        destroy advance resume member
    step w click_auto_sync = if w.on_page then toggle_auto_sync js w else w
    step w click_sync = if w.on_page then start (sync_system js) w else w
    step w click_sse = if w.on_page then toggle_sse w else w
    step w click_report =
        if w.on_page && not w.fetched.report_loading then start (run_report js) w else w
    step w (answer i answers) = elim (get_elem? w.tasks i) [
      | none ↦ w
      | some t ↦ set_task i (advance (resume t answers) w.fetched) w
    ]
    step w (interval t) = if member t w.intervals then start (sync_system js) w else w
    step w (on_message i text) = if w.is_open i then aggregate (parse text) w else w
    step w (on_error i) = if w.is_open i then failed w else w
    step w leave = if w.on_page then destroy w else w

    unfoldable pub run : SystemStatus Num → List (StatusEvent Num) → SystemStatus Num
    unfolding step
    run w [] = w
    run w (e ∷ events) = run (step w e) events
