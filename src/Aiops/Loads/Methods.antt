-- ===== src/Aiops/Loads/Methods.antt =====
-- The methods of static/js/aiops-vue.js that load a panel, by what they differ in. An endpoint or a
-- template that the page's data lacks is the empty text.
use centos_info_collect.Base.{not, ◌&&◌, Option, none, some, List, Text, codes, null, if◌then◌else◌}
use centos_info_collect.Metric.Values.{Value, null_value, property, truthy, array_or_empty}
use centos_info_collect.Aiops.Loads.{Loader}

-- `value || null`
abbrev pub or_null : Value → Value
or_null v = if truthy v then v else null_value

-- the rows of `items(result[key])`
abbrev pub rows : Text → Value → List Value
rows key b = array_or_empty (property key b)

-- a panel of rows, which are `null` from the call to the reply
abbrev pub row_panel : Text → Text → Loader Text (Option (List Value))
row_panel endpoint fallback = record {
  ready = λ window. not (null endpoint);
  reset = λ old. none;
  read = λ b. λ old. some (rows (codes "results") b);
  fallback = fallback;
}

abbrev pub load_alert_groups : Text → Loader Text (Option (List Value))
load_alert_groups endpoint = row_panel endpoint (codes "告警分组加载失败")

abbrev pub load_signal_freshness : Text → Loader Text (Option (List Value))
load_signal_freshness endpoint = row_panel endpoint (codes "信号新鲜度加载失败")

abbrev pub load_service_impacts : Text → Loader Text (Option (List Value))
load_service_impacts endpoint = row_panel endpoint (codes "服务影响加载失败")

-- The choice is a host or a service, and a window.
abbrev pub body_panel : Text → Text → Loader (Text × Text) Value
body_panel endpoint fallback = record {
  ready = λ c. not (null endpoint) && not (null c.0);
  reset = λ old. null_value;
  read = λ b. λ old. b;
  fallback = fallback;
}

abbrev pub load_diagnostic_evidence : Text → Loader (Text × Text) Value
load_diagnostic_evidence endpoint = body_panel endpoint (codes "诊断证据加载失败")

abbrev pub load_service_workbench : Text → Loader (Text × Text) Value
load_service_workbench template = body_panel template (codes "服务事件加载失败")

-- What the remaining ones show until the reply is what they showed before. The rows and the
-- summary:
abbrev pub load_alert_quality_governance : Text → Loader Unit (List Value × Value)
load_alert_quality_governance endpoint = record {
  ready = λ c. not (null endpoint);
  reset = λ old. old;
  read = λ b. λ old. (rows (codes "suggestions") b, or_null (property (codes "summary") b));
  fallback = codes "告警质量治理加载失败";
}

-- The choice is the three differences, as they are typed.
abbrev pub run_capacity_simulation : Text → Loader (Value × (Value × Value)) Value
run_capacity_simulation endpoint = record {
  ready = λ c. not (null endpoint);
  reset = λ old. old;
  read = λ b. λ old. b;
  fallback = codes "容量仿真失败";
}

abbrev pub load_operator_scan : Text → Loader Text Value
load_operator_scan endpoint = record {
  ready = λ window. not (null endpoint);
  reset = λ old. old;
  read = λ b. λ old. property (codes "result") b;
  fallback = codes "主动巡检失败";
}
