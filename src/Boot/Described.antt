-- ===== src/Boot/Described.antt =====
-- src/main.cpp: the camera's description, which `main` keeps as a text and `routine` reads as a number.
use multi_cctv_object_detect.Prelude.{◌≡◌, codes}
use multi_cctv_object_detect.Channel.{CameraChannel}
use multi_cctv_object_detect.Boot.{Ini, camera_text}

-- The description is the text of the channel's number in the settings.
abbrev Described : Ini → CameraChannel → Type 0
Described get c =
    c.channel_camera_description ≡ camera_text get (codes "Camera Description") c.camera_channel_id
