-- ===== src/Tests/Rounds.antt =====
-- The thread of a channel whose camera answers once, and which is stopped after two turns.
use multi_cctv_object_detect.Prelude.{ℕ, pos, true, List, [], ◌∷◌, refl, none, some, Bytes, ok}
use multi_cctv_object_detect.Inference.{BBoxInfo}
use multi_cctv_object_detect.Boot.Ready.{HasRules}
use multi_cctv_object_detect.Channel.{Image, detected}
use multi_cctv_object_detect.DataSave.{listed}
use multi_cctv_object_detect.Routine.{Round, Routine}
use multi_cctv_object_detect.Tests.{rule, manager, world, first}
use multi_cctv_object_detect.Tests.Folder.{file}
use multi_cctv_object_detect.Tests.Turns.{rule-IsReady, room_channel}
use multi_cctv_object_detect.Tests.Web.{person}

abbrev network_of : Bytes → List (BBoxInfo ℕ)
network_of m = person ∷ []

abbrev answered : Round
answered = record {
  answer = some (7 ∷ []);
  still_running = true;
  time = 7;
  manager = manager;
  world = world;
  frame = first;
  opens = true;
  folder_made = ok tt;
  picture_written = ok tt;
  gathering = record {
    elapsed = 5;
    image_file = ok none;
    label_file = none;
    directory = λ entries. ok (listed entries);
  };
}

abbrev unanswered : Round
unanswered = record answered { answer = none; time = 8 }

abbrev thread : Routine Bytes
thread = record {
  channel = room_channel;
  pictures = record { frame = []; sub_frame = [] };
  files = [];
  folder = file (2 ∷ []) 5 ∷ [];
}

abbrev images : List Image
images = detected 7 (pos 3 ∷ []) ∷ detected 8 (pos 3 ∷ []) ∷ []

pub manager-HasRules : HasRules (rule ∷ []) manager
manager-HasRules = record { loaded = refl; ready = (rule-IsReady, tt) }
