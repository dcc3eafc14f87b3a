-- ===== src/Schedules/Schema.antt =====
-- The schemas of schedules (`ScheduleSchema` and its seven values, src/pipeline/schedule_resolver.py).
-- A set is a list, since only membership is asked of it.
use construction_harness.Prelude.{
  if◌then◌else◌, nonempty, nat_eq, string_eq, pair_eq, String, Bool, true, false, Option, none,
  some, List, [], ◌∷◌,
}

abbrev pub Fields : Type 0
Fields = List (String × List String)

pub record ScheduleSchema : Type 0 where
  pub name : String
  pub fields : Fields
  pub core_fields : List String
  pub group_tokens : List String
  pub ambiguous_labels : List String
  pub shape : String
  pub row_key : String
  pub row_grammar : String
  pub merge_rows : Bool
  pub qty_field : Option String
  pub qty_unit : String
  pub title_signature : List String

abbrev first_core : List String → String
first_core [] = ""
first_core (f ∷ fs) = f

unfoldable pub key_field : ScheduleSchema → String
key_field schema = if nonempty schema.row_key then schema.row_key else first_core schema.core_fields

abbrev pub door_schema : ScheduleSchema
door_schema = record {
  name = "door";
  fields =
      ("door_mark", "number" ∷ "mark" ∷ "door number" ∷ "door no" ∷ [])
      ∷ (
        "fire_rating_minutes",
        "fire rating" ∷ "fire rating minutes" ∷ "fire rating min" ∷ "rating" ∷ [],
      )
      ∷ ("width", "width" ∷ [])
      ∷ ("height", "height" ∷ [])
      ∷ ("door_elevation_type", "door elevation" ∷ [])
      ∷ ("door_material", "door material" ∷ [])
      ∷ ("door_finish", "door finish" ∷ [])
      ∷ ("frame_elevation_type", "frame elevation" ∷ [])
      ∷ ("frame_material", "frame material" ∷ [])
      ∷ ("frame_finish", "frame finish" ∷ [])
      ∷ ("hardware_set", "hardware set" ∷ "hardware" ∷ "hw set" ∷ "hw" ∷ [])
      ∷ ("glass_film", "glass film" ∷ "film" ∷ [])
      ∷ ("glass_type", "glass type" ∷ "glazing" ∷ "glass" ∷ [])
      ∷ (
        "special_notes",
        "special notes and comments" ∷ "special notes" ∷ "notes" ∷ "comments" ∷ "remarks" ∷ [],
      )
      ∷ ("location", "location" ∷ "room" ∷ [])
      ∷ [];
  core_fields = "door_mark" ∷ "width" ∷ "height" ∷ "door_material" ∷ [];
  group_tokens = "door" ∷ "frame" ∷ "size" ∷ [];
  ambiguous_labels = "material" ∷ "finish" ∷ "elevation" ∷ [];
  shape = "instance";
  row_key = "door_mark";
  row_grammar = "mark";
  merge_rows = true;
  qty_field = none;
  qty_unit = "EA";
  title_signature = "door" ∷ "schedule" ∷ [];
}

abbrev pub finish_schema : ScheduleSchema
finish_schema = record {
  name = "finish";
  fields =
      ("room_number", "number" ∷ "room number" ∷ "room no" ∷ "room" ∷ [])
      ∷ ("room_name", "name" ∷ "room name" ∷ [])
      ∷ ("floor_finish", "floor" ∷ "flooring" ∷ [])
      ∷ ("base_finish", "base" ∷ [])
      ∷ ("wall_finish", "wall" ∷ "walls" ∷ [])
      ∷ ("ceiling_finish", "ceiling" ∷ [])
      ∷ (
        "comments",
        "special notes and comments" ∷ "special notes" ∷ "notes" ∷ "comments" ∷ "remarks" ∷ [],
      )
      ∷ [];
  core_fields =
      "room_number" ∷ "floor_finish" ∷ "base_finish" ∷ "wall_finish" ∷ "ceiling_finish" ∷ [];
  group_tokens = [];
  ambiguous_labels = [];
  shape = "instance";
  row_key = "room_number";
  row_grammar = "mark";
  merge_rows = false;
  qty_field = none;
  qty_unit = "EA";
  title_signature = "finish" ∷ "schedule" ∷ [];
}

abbrev pub window_schema : ScheduleSchema
window_schema = record {
  name = "window";
  fields =
      ("mark", "mark" ∷ "window mark" ∷ "window" ∷ "type mark" ∷ [])
      ∷ ("window_type", "type" ∷ "window type" ∷ [])
      ∷ ("size", "size" ∷ "size width x height" ∷ "dimensions" ∷ [])
      ∷ ("daylight_area", "daylight area" ∷ "glass area" ∷ "glazing area" ∷ [])
      ∷ ("ventilation_area", "ventilation area" ∷ "vent area" ∷ "operable area" ∷ [])
      ∷ ("notes", "notes" ∷ "remarks" ∷ "comments" ∷ [])
      ∷ [];
  core_fields = "mark" ∷ "window_type" ∷ "size" ∷ [];
  group_tokens = [];
  ambiguous_labels = [];
  shape = "catalog";
  row_key = "mark";
  row_grammar = "mark";
  merge_rows = false;
  qty_field = none;
  qty_unit = "EA";
  title_signature = "window" ∷ "schedule" ∷ [];
}

abbrev pub plumbing_fixture_schema : ScheduleSchema
plumbing_fixture_schema = record {
  name = "plumbing_fixture";
  fields =
      ("fixture_tag", "fixture tag" ∷ "tag" ∷ "mark" ∷ "fixture" ∷ [])
      ∷ ("description", "description" ∷ "fixture description" ∷ [])
      ∷ ("fixture_type", "type" ∷ [])
      ∷ ("manufacturer", "manufacturer" ∷ "mfr" ∷ "manufacture" ∷ [])
      ∷ ("model", "model" ∷ "model no" ∷ "model number" ∷ [])
      ∷ ("quantity", "quantity" ∷ "qty" ∷ "count" ∷ [])
      ∷ ("remarks", "plumbing remarks" ∷ "remarks" ∷ "notes" ∷ "comments" ∷ [])
      ∷ [];
  core_fields = "fixture_tag" ∷ "description" ∷ [];
  group_tokens = [];
  ambiguous_labels = [];
  shape = "catalog";
  row_key = "fixture_tag";
  row_grammar = "mark";
  merge_rows = false;
  qty_field = some "quantity";
  qty_unit = "EA";
  title_signature = "plumbing" ∷ "fixture" ∷ [];
}

abbrev pub lighting_fixture_schema : ScheduleSchema
lighting_fixture_schema = record {
  name = "lighting_fixture";
  fields =
      ("fixture_tag", "type" ∷ "fixture type" ∷ "tag" ∷ "mark" ∷ "symbol" ∷ "fixture" ∷ [])
      ∷ ("description", "description" ∷ "fixture description" ∷ "luminaire" ∷ [])
      ∷ ("manufacturer", "manufacturer" ∷ "mfr" ∷ "manufacture" ∷ [])
      ∷ ("model", "model" ∷ "catalog" ∷ "catalog number" ∷ "catalog no" ∷ [])
      ∷ ("lamp", "lamp" ∷ "lamps" ∷ "lamp type" ∷ "load" ∷ [])
      ∷ ("driver", "driver" ∷ "ballast" ∷ [])
      ∷ ("remarks", "remarks" ∷ "notes" ∷ "comments" ∷ [])
      ∷ [];
  core_fields = "fixture_tag" ∷ "description" ∷ [];
  group_tokens = [];
  ambiguous_labels = [];
  shape = "catalog";
  row_key = "fixture_tag";
  row_grammar = "mark";
  merge_rows = false;
  qty_field = none;
  qty_unit = "EA";
  title_signature = "lighting" ∷ "fixture" ∷ [];
}

abbrev pub camera_schedule : ScheduleSchema
camera_schedule = record {
  name = "camera";
  fields =
      ("device_number", "device number" ∷ "camera number" ∷ "number" ∷ [])
      ∷ ("room_number", "room number" ∷ "room" ∷ [])
      ∷ ("room_name", "room name" ∷ "name" ∷ [])
      ∷ ("camera_type", "camera type" ∷ [])
      ∷ ("make_model", "make model" ∷ "make & model" ∷ "make" ∷ [])
      ∷ ("reference", "reference detail" ∷ "reference" ∷ [])
      ∷ [];
  core_fields = "device_number" ∷ "camera_type" ∷ [];
  group_tokens = [];
  ambiguous_labels = [];
  shape = "instance";
  row_key = "device_number";
  row_grammar = "free";
  merge_rows = false;
  qty_field = none;
  qty_unit = "EA";
  title_signature = "camera" ∷ "schedule" ∷ [];
}

abbrev pub security_device_schema : ScheduleSchema
security_device_schema = record {
  name = "security_device";
  fields =
      ("device_number", "device number" ∷ "number" ∷ [])
      ∷ ("room_number", "room number" ∷ "room" ∷ [])
      ∷ ("room_name", "room name" ∷ "name" ∷ [])
      ∷ ("device_type", "device type" ∷ [])
      ∷ ("make", "make" ∷ "model" ∷ [])
      ∷ ("reference", "reference detail" ∷ "reference" ∷ [])
      ∷ [];
  core_fields = "device_number" ∷ "device_type" ∷ [];
  group_tokens = [];
  ambiguous_labels = [];
  shape = "instance";
  row_key = "device_number";
  row_grammar = "free";
  merge_rows = false;
  qty_field = none;
  qty_unit = "EA";
  title_signature = "security" ∷ "device" ∷ [];
}

abbrev pub schedule_registry : List ScheduleSchema
schedule_registry =
    door_schema ∷ finish_schema ∷ window_schema ∷ plumbing_fixture_schema ∷ lighting_fixture_schema
    ∷ camera_schedule ∷ security_device_schema ∷ []
