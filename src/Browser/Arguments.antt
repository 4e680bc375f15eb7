-- ===== src/Browser/Arguments.antt =====
-- src/bin/xanhtab-browser.rs: the arguments of `gst-launch-1.0`.
use xanh_tab.Prelude.{ℕ, Bool, List, [], ◌∷◌, ◌++◌, if◌then◌else◌}
use xanh_tab.Text.{Text, codes}
use xanh_tab.Text.Methods.{print_u32}
use xanh_tab.Model.{Url, StreamProfile, full_hd30, hd15, sd10, dimensions}
use xanh_tab.Fallible.{Fallible, done, ◌>>◌}
use xanh_tab.Browser.{Setup, check_pipeline_args}

unfoldable pub bitrate : StreamProfile → ℕ
bitrate full_hd30 = 6_000_000
bitrate hd15 = 3_000_000
bitrate sd10 = 1_200_000

-- The formats of the caps and of the encoder.
unfoldable pub caps : StreamProfile → Text
unfolding dimensions print_u32
caps profile =
    let (width, height, fps) = dimensions profile in
    codes "video/x-raw,format=I420,width="
    ++ (print_u32 width
        ++ (codes ",height="
            ++ (print_u32 height ++ (codes ",framerate=" ++ (print_u32 fps ++ codes "/1")))))

unfoldable pub controls : StreamProfile → Text
unfolding bitrate print_u32
controls profile = codes "extra-controls=controls,video_bitrate=" ++ print_u32 (bitrate profile)

-- From the page's picture to the sink, and from its sound.
unfoldable pub video_arguments : Setup → Url → StreamProfile → List Text
unfolding caps controls print_u32
video_arguments setup url profile =
    codes "-e"
    ∷ codes "wpesrc"
    ∷ codes "name=web"
    ∷ (codes "location=" ++ codes url.text)
    ∷ codes "web.video"
    ∷ codes "!"
    ∷ codes "queue"
    ∷ codes "leaky=downstream"
    ∷ codes "max-size-buffers=2"
    ∷ codes "!"
    ∷ codes "gldownload"
    ∷ codes "!"
    ∷ codes "videoconvert"
    ∷ codes "!"
    ∷ caps profile
    ∷ codes "!"
    ∷ codes "v4l2h264enc"
    ∷ controls profile
    ∷ codes "!"
    ∷ codes "h264parse"
    ∷ codes "config-interval=-1"
    ∷ codes "!"
    ∷ codes "video/x-h264,profile=baseline"
    ∷ codes "!"
    ∷ codes "webrtcsink"
    ∷ codes "name=rtc"
    ∷ codes "enable-control-data-channel=true"
    ∷ codes "run-signalling-server=true"
    ∷ (codes "signalling-server-host=" ++ codes setup.signaling_host)
    ∷ (codes "signalling-server-port=" ++ print_u32 setup.signaling_port)
    ∷ codes "run-web-server=false"
    ∷ codes "meta=meta,name=xanhtab"
    ∷ []

abbrev pub audio_arguments : List Text
audio_arguments =
    codes "web.audio_0"
    ∷ codes "!"
    ∷ codes "queue"
    ∷ codes "!"
    ∷ codes "audioconvert"
    ∷ codes "!"
    ∷ codes "audioresample"
    ∷ codes "!"
    ∷ codes "opusenc"
    ∷ codes "bitrate=64000"
    ∷ codes "!"
    ∷ codes "rtc."
    ∷ []

-- `pipeline_args`
unfoldable pub pipeline_args : Setup → Bool → Url → StreamProfile → Fallible (List Text)
unfolding check_pipeline_args video_arguments
pipeline_args setup public_stun url profile = do
  check_pipeline_args setup url
  done (
      video_arguments setup url profile
      ++ (audio_arguments ++ (if public_stun then [] else codes "stun-server=" ∷ [])))
