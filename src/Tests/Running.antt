-- ===== src/Tests/Running.antt =====
-- Core and its servers: a run at concrete inputs.
use mathlib.Core.Option
use minority_viewport.Base.{
  ℕ, ◌+◌, [], ◌∷◌, map, Bytes, codes, Option, none, some, Result, ok, err, ◌≡◌, refl, arith,
}
use minority_viewport.Base.OrderedMap.{insert}
use minority_viewport.Base.Texts.{bytes_eq, has_dots, find_last}
use minority_viewport.Data.ClientsList.{
  add_client, generate_next_client_id, draw_id, is_assigned, new_clients_list, at, set_at,
}
use minority_viewport.Data.Client.{initial_sensors_list, load_sensors}
use minority_viewport.Data.Sensor.{new_sensor}
use minority_viewport.Data.Scene.{new_scene}
use minority_viewport.Data.Skeleton.Reading.{new_skeleton, read_joints, read_tracking}
use minority_viewport.Algorithms.Viewport.{register_client, register_sensors, new_viewport}
use minority_viewport.Algorithms.Viewport.Ownership.Allocation.{IsFresh}
use minority_viewport.Algorithms.Viewport.Sensors.{load_skeleton}
use minority_viewport.Algorithms.Viewport.SensorData.{
  process_sensor_data, process_parsed, load_skeletons,
}
use minority_viewport.Algorithms.Viewport.Soundness.{IsSound}
use minority_viewport.Networks.Request.{Request}
use minority_viewport.Networks.Reply.{Reply, StatusType}
use minority_viewport.Networks.Connection.Serving.{no_reply}
use minority_viewport.Networks.RequestHandler.Endpoints.{
  Server, endpoints, register_client_endpoint, register_sensors_endpoint,
}
use minority_viewport.Networks.RequestHandler.Handling.{
  handle_request, handle_checked, handle_path, send_file, send_found,
}
use minority_viewport.Networks.RequestHandler.Numbers.{
  stoi, skip_blanks, read_signed, read_unsigned, leading_digits,
}
use minority_viewport.Networks.RequestHandler.Paths.{request_path, extension, request_header_val}
use minority_viewport.Networks.RequestHandler.UrlDecode.{url_decode, is_space}
use minority_viewport.Networks.UdpServer.{datagram, receive, up_to_zero}
use minority_viewport.Core.{new_core, request, reception, Reach, here, next}
use minority_viewport.Core.Running.{Reach-new_core}
use minority_viewport.Core.Refinement.{Reach-Refines}
use minority_viewport.Data.ClientsList.Registry.{Enters}
use minority_viewport.Algorithms.Viewport.Registration.{registered}
use minority_viewport.Tests.Handling.{answers, registration}
use minority_viewport.Networks.RequestHandler.Handling.Registration.{announced}
use minority_viewport.Tests.World.{world}

abbrev no_files : Bytes → Option Bytes
no_files path = none

abbrev or_start : Result (Reply × Server world) → Reply × Server world
or_start (ok r) = r
or_start (err e) = (no_reply StatusType.ok, (new_core world 1000 5 no_files).server)

abbrev handled : Request → Server world → Reply × Server world
handled q s = or_start (handle_request world (codes "web") answers q (no_reply StatusType.ok) s)

abbrev sensors_request : Request
sensors_request = record registration {
  uri = codes "/api/sensors/register.json";
  headers =
      record { name = codes "CLIENT_ID"; value = codes "8" }
      ∷ record { name = codes "SENSOR_LIST"; value = codes "{}" }
      ∷ [];
}

-- A client is registered, then its sensor, and a datagram with a skeleton of somebody else's arrives.
abbrev joined : Reply × Server world
joined = handled registration (new_core world 1000 5 no_files).server

abbrev after : Reply × Server world
after = handled sensors_request joined.1

one_sensor :
    (map (λ c. map (λ e. e.1.scene) c.sensors) after.1.viewport.clients.raw_client_list
      ≡ (50 ∷ []) ∷ [])
    × (Option.map (λ s. s.sensor_id) (after.1.viewport.store.cell 50) ≡ some (codes "b"))
unfolding new_core new_viewport new_clients_list handle_request handle_checked handle_path send_file
    send_found endpoints register_client_endpoint register_sensors_endpoint request_path url_decode
    has_dots extension find_last bytes_eq request_header_val register_client register_sensors set_at
    initial_sensors_list load_sensors new_sensor insert new_scene add_client generate_next_client_id
    draw_id is_assigned receive up_to_zero process_sensor_data process_parsed load_skeletons
    new_skeleton read_joints read_tracking load_skeleton at stoi skip_blanks read_signed
    read_unsigned leading_digits is_space
one_sensor = (refl, refl)

fresh : IsFresh answers.address (new_core world 1000 5 no_files).server.viewport.store
unfolding new_core new_viewport
fresh = record { different = λ j k e. omega (arith, e); free = λ k h. refl }

joined-IsFresh : IsFresh answers.address joined.1.viewport.store
unfolding new_core new_viewport new_clients_list handle_request handle_checked handle_path send_file
    send_found endpoints register_client_endpoint register_sensors_endpoint request_path url_decode
    has_dots extension find_last bytes_eq request_header_val register_client register_sensors set_at
    initial_sensors_list load_sensors new_sensor insert new_scene add_client generate_next_client_id
    draw_id is_assigned receive up_to_zero process_sensor_data process_parsed load_skeletons
    new_skeleton read_joints read_tracking load_skeleton at stoi skip_blanks read_signed
    read_unsigned leading_digits is_space
joined-IsFresh = record { different = λ j k e. omega (arith, e); free = λ k h. refl }

after-Reach : Reach world (codes "web") (new_core world 1000 5 no_files).server after.1
unfolding new_core new_viewport new_clients_list handle_request handle_checked handle_path send_file
    send_found endpoints register_client_endpoint register_sensors_endpoint request_path url_decode
    has_dots extension find_last bytes_eq request_header_val register_client register_sensors set_at
    initial_sensors_list load_sensors new_sensor insert new_scene add_client generate_next_client_id
    draw_id is_assigned receive up_to_zero process_sensor_data process_parsed load_skeletons
    new_skeleton read_joints read_tracking load_skeleton at stoi skip_blanks read_signed
    read_unsigned leading_digits is_space
after-Reach =
    next
      (next
        (next here (
          request answers registration (no_reply StatusType.ok)
            (new_core world 1000 5 no_files).server joined.0 joined.1 fresh refl))
        (request answers sensors_request (no_reply StatusType.ok) joined.1 after.0 after.1
          joined-IsFresh refl))
      (reception (λ i. i + 9) (datagram b'{' (codes "}")) after.1 after.1.viewport refl)

Reach-new_core_example : IsSound after.1.viewport
Reach-new_core_example = Reach-new_core world (codes "web") 1000 5 no_files after-Reach

Reach-Refines_example :
    (id : ℕ) × Enters id
      (announced world (codes "web") answers registration)
      (registered (new_core world 1000 5 no_files).server.viewport)
      (registered joined.1.viewport)
unfolding new_core new_viewport new_clients_list handle_request handle_checked handle_path send_file
    send_found endpoints register_client_endpoint request_path url_decode has_dots extension
    find_last bytes_eq request_header_val register_client add_client generate_next_client_id draw_id
    is_assigned
Reach-Refines_example = Reach-Refines world (codes "web") 1000 5 no_files here (
    request answers registration (no_reply StatusType.ok) (new_core world 1000 5 no_files).server
      joined.0 joined.1 fresh refl)
