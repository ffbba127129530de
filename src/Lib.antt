-- ===== src/Lib.antt =====
-- A verification library for OneDriveHydration: the installer that puts the hydration helper, the
-- sync daemon and their units on a machine and takes them down again, and what the daemon has around
-- its sync: the publisher of the sign-in state, the browser sign-in, the waiting for the secret store,
-- the state service on the session bus with the jobs it runs, and the tray that follows it.
--
-- The program's parts. crates/installer turns the facts of a deployment into a plan (checks and
-- actions, `plan::install` and `plan::uninstall`) and executes a plan (`plan::execute`).
-- crates/onedrive-daemon is the product shell: daemon, D-Bus service, tray, enrollment; it stands on
-- the crates of HydrationAPI, which are not in this repository. packaging/ is QML, C++ and Python.
--
-- What models what:
--   Text, Text/*           Rust's `str` and `Path`: texts are lists of code points; UTF-8 in Text/Bytes
--   Installer/Facts        crates/installer/src/lib.rs (`Facts`), `Tray` of units.rs
--   Installer/Units, Units/*   crates/installer/src/units.rs: rendering, directories, directive scan
--   Installer/Mounts       the mount table of crates/installer/src/probes.rs
--   Installer/Fstab        `fstab_entry`, `fstab_suggestion`, `stable_device_name` of probes.rs
--   Installer/Kernel, Session   the other probes, over what the system answered
--   Installer/Plan, Plan/Checks, Placement, Collide, Install, Uninstall   crates/installer/src/plan.rs
--   Installer/Plan/Execute, Execute/Perform   `execute` and the helpers below it
--   Installer/Main         how crates/installer/src/main.rs comes to an uninstall plan
--   Daemon/AuthState, AuthState/Accept   crates/onedrive-daemon/src/auth_state.rs: `serve` and
--                          `accept_loop` as moves of two threads over the shared variables
--   Daemon/Store           `wait_for_store` of crates/onedrive-daemon/src/lib.rs
--   Daemon/Control         `control_request` of crates/onedrive-daemon/src/lib.rs
--   Daemon/Watcher         the loop of `watch_daemon` and `watch_credential` of
--                          crates/onedrive-daemon/src/dbus.rs, for any type of state
--   Daemon/Bus             the state lines and the eviction replies of dbus.rs
--   Daemon/Surface, Surface/Signals   the methods and signals of `ControlSurface` of dbus.rs
--   Daemon/Surface/Enrolling   its `begin_enrollment`, as steps of calls and workers
--   Daemon/Tray, Tray/Desktop   what crates/onedrive-daemon/src/tray.rs shows for a state
--   Daemon/Tray/Menu, Tray/Show   the served menu and item, and `apply_presentation`
--   Daemon/Tray/Turn       the loop of `run` of tray.rs, and its threads
--   Daemon/Jobs, Jobs/Paths, Jobs/Files, Jobs/Worker   `Jobs` of
--                          crates/onedrive-daemon/src/jobs.rs: its start, the loop over the files, the worker;
--                          Jobs/Issues is `check_issues`
--   Daemon/Enroll          `BrowserEnrollment::complete_with` of crates/onedrive-daemon/src/pkce.rs
--   Tests, Tests/*         concrete machines and interleavings, and the theorems applied to them
--
-- Conventions. A text of the installer that is shown to a person is a constructor with the values
-- that the source interpolates; what the tray shows is text. Planning reads a `Machine`, whose fields are what the file system answers while
-- nothing is written. Execution asks a `System`, whose answers are functions of the history of all
-- requests made before, so each call may fail and the world may change between two calls; `Exec` is
-- the monad of such computations, and the history keeps each request with its answer. The two
-- threads of the publisher of the sign-in state are interleaved at the sections that a lock or an
-- atomic makes indivisible; `adopt` returns, as in the tests of the source.
--
-- The watchers of the bus service read connections, each the lines that came until it was lost. The
-- tray reads events; what it reads from the service when that returns is part of the event. The
-- events of signals come in the order in which the signals were sent, which the threads of the source
-- keep only for signals of one kind. A job
-- reads at each turn what it sees then, as a function of the turn: the cancel flag, the file, the
-- daemon's answers. A path that was made canonical is the list of its components.
--
-- Bounds. The search for missing parent directories has as fuel one more than the length of the
-- path, which is more than the number of its components. `decimal` prints at most twenty digits,
-- enough for 64 bits. The waiting for the secret store has as fuel one more than its bound in
-- milliseconds, and each look but the last takes 500 of them. Unsigned numbers are parsed with the
-- limit of their Rust type.
--
-- Not modelled: system calls themselves (fanotify, uname, getpwnam_r), `busctl`, the templates'
-- texts, which are arguments; the parsing of the installer's arguments; the setup wizard; the adoption of a legacy credential; the search for files below a folder
-- (`collect`); the listener, the headers and the token endpoint of the browser sign-in; account.rs,
-- main.rs and the command line client; tests and packaging.
pub mod Prelude
pub mod Text
pub mod Installer
pub mod Daemon
pub mod Tests
