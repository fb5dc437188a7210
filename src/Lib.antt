-- ===== src/Lib.antt =====
-- Verification of the sensors HAL, of the vibrator HAL, of parts of the camera HAL, and of libhwdb.
--
-- interfaces/sensors/mainline is an Android sensors HAL. Backends (shared libraries) find sensors and
-- post events; the manager (SensorManager.cpp) gives the sensors global handles, routes the requests of
-- the framework to the backends and their events to the framework; the dispatcher
-- (EventDispatcher.cpp) writes the events to a queue and holds a wake lock for them; the service
-- (Sensors.cpp) is the AIDL face of both. libraries/libhwdb reads systemd hwdb files, in which the HAL
-- looks up quirks of the hardware. interfaces/camera/mainline is the camera HAL.
-- interfaces/vibrator/mainline drives a force feedback device and calls callbacks when a vibration ends.
--
-- The files and the code that they model:
--   Hwdb/Parser, Hwdb/Lookup: libraries/libhwdb/Hwdb.cpp. `parse` is Hwdb::Parse; `feed` is its switch
--     over the state, `match_and_collect` is MatchAndCollect.
--   Hwdb/Udev: libraries/libhwdb/UdevSanitize.cpp. `sanitize_from` is the loop, with the number of bytes
--     that it still steps over.
--   Sensors/SensorType, Sensors/SensorTypes: utils/common/SensorTypes.cpp below
--     interfaces/sensors/mainline, as are the following files.
--   Sensors/Events: utils/common/SensorEvents.cpp, without the functions that print.
--   Sensors/Settings: utils/common/Settings.cpp. `reload` is Reload, `load_lines` the loop of LoadFile.
--   Sensors/DmiModalias, Sensors/SensorHwdb: utils/hwdb/DmiModalias.cpp and utils/hwdb/SensorHwdb.cpp.
--   Sensors/EventDispatcher: EventDispatcher.cpp, each method one step, also where it takes its
--     two mutexes one after the other.
--   Sensors/BackendLoader: BackendLoader.cpp.
--   Sensors/Manager: SensorManager.cpp and SensorManager.h. `State` has the fields; `Apply` is
--     ApplyHardwareState; `Requests` has Activate, Batch, Flush, SetOperationMode, InjectEvent and
--     DeactivateAll; `Delivery` is OnBackendEvents; `Registration`, `Composites` and `Discovery` are
--     RegisterHardwareSensors, RegisterComposites and Initialize. control_mutex_ makes a request one step.
--   Sensors/DeviceOrientation: composite/DeviceOrientationSensor.cpp.
--   Sensors/Service: Sensors.cpp.
--   Sensors/Iio: backends/iio. `ScanType`, `Decode` and `ScanLayout` are IioScanType, DecodeRaw and
--     ComputeScanLayout of IioChannel.cpp, on 64-bit words; `AttributeName` and `SensorSpecs` are the
--     parser of attribute names, the quirks and MatchIioSensorSpecs of IioTypes.cpp.
--   Camera/CameraIdAllocator: interfaces/camera/mainline/provider/CameraIdAllocator.cpp. `first_free` is
--     the loop of Allocate.
--   Camera/StreamPlanner: interfaces/camera/mainline/device/StreamPlanner.cpp. `plan` is Plan.
--   Vibrator/State, Device, Requests, Capabilities, Threads: interfaces/vibrator/mainline/Vibrator.cpp
--     and include/vibrator-impl/Vibrator.h below it. `Device` has uploadEffect, playEffect, stopEffect and
--     eraseEffect, `Requests` and `Capabilities` the AIDL calls. A detached thread is the list of its
--     steps (Action), `finish` the end of a vibration in dispatchVibrate and perform; a run (IsRun) is any
--     interleaving of calls with steps of threads. Uses of the input device that overlap, which no mutex
--     keeps apart, may leave any commands on it and any mLastEffectId.
--   Prelude: helpers; Examples: the theorems at concrete inputs.
--
-- What is not in the repository is a parameter: libbase (AndroidBase), fnmatch(3), the file system and
-- the Android properties, the dynamic linker, float arithmetic, the constants of the AIDL interface, the
-- clock, the message queues, the wake lock, the ids that a force feedback device gives. What a backend
-- answers is a function of the calls made so far, and nothing is assumed of it. The SMBIOS parser is a vendored library and a parameter too.
--
-- Numbers: handles are patterns of int32_t, floats patterns of binary32, periods and timestamps
-- integers that are taken to be far from the limits of int64_t; the count of wake-up events wraps at
-- 2^32 and the count of dropped events at 2^64. Two loops are on fuel: the discovery loop, which ends when
-- all sensors are there or the deadline has passed, and the search for a free camera id, which has one
-- round for each id in use.
--
-- Not modelled: log messages, threads below the granularity of the mutexes, the devices and sensors of the
-- IIO backend, the input and mock backends, the manager, the sessions and the getters of the vibrator
-- HAL, the other parts of the camera HAL, and the audio and graphics HALs of the repository.
pub mod Prelude
pub mod Hwdb
pub mod Sensors
pub mod Camera
pub mod Vibrator
pub mod Examples
