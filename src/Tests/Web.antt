-- ===== src/Tests/Web.antt =====
-- The tunnel, an install, browsers and network interfaces at small inputs.
use timberlake.Base.{
  ℕ, ◌≡◌, refl, ◌⊎◌, inr, true, false, List, [], ◌∷◌, none, some, member, remove, length,
}
use timberlake.Ui.Model.{ProgramState, Status, Model, FileRecord}
use timberlake.Strings.{trim_right, keep_right}
use timberlake.Base.Int.{pos}
use timberlake.Ui.Publish.{Outside}
use timberlake.Tests.Ui.{fresh}
use timberlake.Io.{Text, codes, eq_text, message, wrapped, ok, err}
use timberlake.Web.Tunnel.{
  on, new_tunnel, launched, begin, launch, found, run, step, is_active, on_begin, on_launch,
  on_found,
}
use timberlake.Web.Tunnel.Url.{UrlRight, run-UrlRight}
use timberlake.Web.Install.{
  Installer, Answers, install, Outcome, idle, failed as install_failed, is_busy, run as run_install,
  fetch, prepare, find_asset, assets,
}
use timberlake.Web.Install.Verified.{Left, install-Left}
use timberlake.Web.Hub.{
  Hub, new_hub, run as run_hub, step as step_hub, Event, set, wake, subscribe, first, update, tick,
  no_snapshot,
}
use timberlake.Web.Hub.Current.{AllServed, Each, run-AllServed}
use timberlake.Web.Hub.Reached.{IsReached, ids, settle-IsReached}
use timberlake.Web.Lan.{Interface, lan_ip}
use timberlake.Web.Lan.Shared.{SomeOffers, NoneVirtual, lan_ip-Right}

run-started :
    run (begin true ∷ launch launched ∷ found 0 (codes "https://x/") (codes "/t/1") ∷ []) new_tunnel
    ≡ some (record new_tunnel {
      state = on;
      url = codes "https://x/t/1";
      process = some 0;
      waiting = 0 ∷ [];
      next = 1;
    })
unfolding run step on_begin is_active on_launch on_found trim_right keep_right member remove
run-started = refl

run-UrlRight_example : UrlRight (record new_tunnel {
  state = on;
  url = codes "https://x/t/1";
  process = some 0;
  waiting = 0 ∷ [];
  next = 1;
})
run-UrlRight_example =
    run-UrlRight (begin true ∷ launch launched ∷ found 0 (codes "https://x/") (codes "/t/1") ∷ [])
      new_tunnel _ (inr refl) run-started

abbrev same_hash : List ℕ → Text
same_hash body = codes "9d71c677db00134c1bd4144b7783486b654ad281b1ea62b4972098d19f770f17"

abbrev no_chmod : Answers
no_chmod = record {
  path = codes "/cache/cloudflared";
  mkdir = ok tt;
  request = ok tt;
  response = ok (record {
    is_ok = true;
    length = 3;
    body = record { chunks = (1 ∷ 2 ∷ []) ∷ (3 ∷ []) ∷ []; fault = none };
  });
  create_temp = ok tt;
  room = some 100;
  close_temp = ok tt;
  archive = λ body. err (message "not an archive");
  create_out = ok tt;
  close_out = ok tt;
  rename = ok tt;
  chmod = err (message "not permitted");
}

abbrev new_installer : Installer
new_installer = record { state = idle; error = none; received = 0; total = 0; asset_tag = [] }

abbrev not_executable : Outcome
not_executable = record {
  installer = record {
    state = install_failed;
    error = some (wrapped "making it executable" (message "not permitted"));
    received = 3;
    total = 3;
    asset_tag = codes "cloudflared-linux-amd64";
  };
  binary = some (record { content = 1 ∷ 2 ∷ 3 ∷ []; executable = false });
  result = err (wrapped "making it executable" (message "not permitted"));
}

install_linux :
    install same_hash (codes "linux/amd64") no_chmod new_installer none ≡ some not_executable
unfolding install eq_text is_busy run_install fetch prepare find_asset assets
install_linux = refl

install-Left_example : Left same_hash (codes "linux/amd64") no_chmod none not_executable
install-Left_example =
    install-Left same_hash (codes "linux/amd64") no_chmod none new_installer not_executable
      install_linux

-- Text stands for float64.
abbrev one_browser : List (Event Text [])
one_browser = subscribe 7 ∷ first 7 true ∷ set 1 (no_snapshot Text []) ∷ wake ∷ []

run-AllServed_example : AllServed Text [] (run_hub Text [] one_browser (new_hub Text []))
run-AllServed_example = run-AllServed Text [] one_browser

settle-IsReached_example :
    let h : Hub Text [] = run_hub Text [] one_browser (new_hub Text []) in
    let h' : Hub Text [] = run_hub Text [] (update 7 ∷ tick 7 true ∷ []) h in
    (ids Text [] h'.connections ≡ ids Text [] h.connections)
    × (h'.stored ≡ h.stored)
    × Each Text [] (IsReached Text [] 7 h.stored) h'.connections
unfolding run_hub step_hub
settle-IsReached_example = settle-IsReached Text [] one_browser 7 refl

abbrev two_interfaces : List Interface
two_interfaces =
    (record {
      up = true;
      loopback = false;
      name = codes "Docker0";
      addresses =
          ok (record { is_net = true; ipv4 = some (codes "172.17.0.1"); is_private = true } ∷ []);
    })
    ∷ (record {
      up = true;
      loopback = false;
      name = codes "eth0";
      addresses =
          ok (record { is_net = true; ipv4 = some (codes "10.0.0.2"); is_private = true } ∷ []);
    })
    ∷ []

lan_ip-Right_example :
    SomeOffers false two_interfaces (lan_ip (ok two_interfaces))
    ⊎ (((real : Text) → ¬ SomeOffers false two_interfaces real)
        × (SomeOffers true two_interfaces (lan_ip (ok two_interfaces))
            ⊎ ((lan_ip (ok two_interfaces) ≡ codes "localhost") × NoneVirtual two_interfaces)))
lan_ip-Right_example = lan_ip-Right two_interfaces

abbrev shown_outside : Outside ℕ
shown_outside = record {
  source_label = codes "/data";
  dest_label = codes "s3://b/p";
  speed_bps = 5;
  is_positive = true;
  over_speed = λ bytes. pos 1;
  seconds = λ duration. pos 0;
  elapsed = pos 7;
  boring = false;
}

abbrev browser_7 : List (Event ℕ 0)
browser_7 = subscribe 7 ∷ first 7 true ∷ []

abbrev older : FileRecord
older = record {
  name = codes "a";
  size = 5;
  status = Status.done;
  duration = 1;
  at = 2;
  worker_id = 0;
}

abbrev busy : Model ℕ
busy = record fresh {
  state = ProgramState.uploading;
  uploaded_files = 1;
  recent_files = older ∷ record older { name = codes "b"; status = Status.skipped } ∷ [];
}
