-- ===== src/Provider/Sse/Examples.antt =====
-- A stream of server-sent events, scanned.
use ultiproxy.Base.{◌≡◌, refl, false, List, [], ◌∷◌, ◌++◌, Text, bytes}
use ultiproxy.Provider.Sse.{event, scan, trim_space, trim_left, trim_right, join_lines}
use ultiproxy.Provider.Sse.RoundTrip.{Message, written, all_noise, scan-written}

abbrev delta : Message
delta = record { event_type = bytes "delta"; event_id = []; lines = bytes "{" ∷ bytes "}" ∷ [] }

abbrev done : List Text
done = bytes "data: [DONE]" ∷ []

-- A keep-alive comes first.
scan-written_example :
    scan false ((bytes ": ping" ∷ []) ++ written delta done)
    ≡ event
        (record {
          event_type = bytes "delta";
          event_data = join_lines (bytes "{" ∷ bytes "}" ∷ []);
          event_id = [];
        })
        done
unfolding all_noise trim_space trim_left trim_right
scan-written_example = scan-written false (bytes ": ping" ∷ []) delta done refl refl refl refl
