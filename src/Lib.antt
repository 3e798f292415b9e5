-- ===== src/Lib.antt =====
-- A verification library for the motion-activated camera of the BeagleBone Black: a PIR sensor on a
-- GPIO pin is watched, the camera stores frames while there is motion, and the frames are sent over
-- UDP.
--
-- The program's parts and the files that model them:
-- - utils/types/types.h, utils/types/utils.h: the result codes and units, in Types.
-- - utils/ringbuffer/ringbuffer.h: the ring buffer macros, in RingBuffer. A macro that assigns to its
--   argument returns the new ring. RingBuffer/Bounds has the representation invariant,
--   RingBuffer/Refine the queue that a ring stands for, and RingBuffer/Spsc the two tasks that share
--   a ring, as a step relation on the accesses that another task can come between. RingBuffer/RoundTrip
--   is about runs of writes and reads, RingBuffer/Copy about the write by copy,
--   and RingBuffer/Abstract about rings up to the place of their pointers, as a quotient.
-- - middleware/events/events.h: the events between the tasks, in Events.
-- - src/detection/detection.c: the motion detection task, in Detection. `iterate` is one turn of the
--   loop, from what the sensor and the clock answer to the events sent; `detection_task` runs it over
--   a list of such answers. Detection/Gpio has the functions on the GPIO files, and Detection/Exit
--   `detection_exit` in the middle of a turn.
-- - src/camera/camera_cfg.h: the configuration `CAMERA_USE_MJPEG`, in Config.
-- - middleware/frameBuffer/framebuffer.c: the camera's buffers and the ring of raw frames, in
--   Framebuffer; its initialisation is in Framebuffer/Setup, `framebuffer_deinit` in
--   Framebuffer/Teardown.
-- - src/camera/camera.c: the camera task, in Camera. `turn` is one turn of its loop; it calls
--   `framebuffer_writeframe`. Camera/Init has `camera_init`, Camera/Exit `camera_exit` in the middle of
--   a turn.
-- - middleware/image/color_lut.c and image.c: in Image. Image/Lut has the tables, Image/Yuv the
--   conversion of a pixel, Image/Convert that of a frame, Image/Buffer the ring of RGB frames,
--   Image/Send the loop that sends a frame, Image/FileWrite and Image/SaveFile the build that writes
--   frames to files.
-- - src/transcoder/transcoder.c: the transcoder task, in Transcoder; src/nvm/nvm.c: the streaming task,
--   in Nvm. `turn` is one turn of the task's loop; `transcoder_task` and `nvm_task` are the loops with
--   their flags.
-- - utils/osal/osal.c: the task table and the sequencer that releases the tasks, in Osal; mutexes,
--   semaphores and message queues in Osal/Sync; deletion, suspension and waiting in Osal/Threads; the
--   start and the shutdown of the layer in Osal/Life. Osal/Ticks interleaves the handler of the timer
--   with the thread of the scheduler (Osal/Ticks/Prompt: alarms handled one by one), and Osal/Locks
--   threads that take the two mutexes of the layer, or are refused them above the ceiling.
-- - utils/syslog/syslog.c: the log, in Syslog.
-- - src/main.c: the start of the program, in Main; the build with SIMPLE_TASKS and its two tasks in
--   Main/Simple.
--
-- How they interact: the detection task sends events to the camera task, which Motion models
-- over the message queue of Mqueue; the camera task fills the ring of Framebuffer, which the
-- transcoder task empties; the transcoder fills the ring of Image/Buffer, which the streaming
-- task empties with `image_save`. Pipeline has the three tasks of this path with turns in any
-- order; what can come between the accesses of two tasks to one ring is in RingBuffer/Spsc.
-- System joins the detection task, the message queue and Pipeline, with turns of the four tasks
-- in any order. Main creates the tasks and Osal releases them.
--
-- Conventions. The operating system (`open`, `read`, `write`, `ioctl`, `select`, `mmap`, `sendto`,
-- the clock, the calls of pthread, signals and timers) and the C library's formatting are arguments; the
-- message queue is an interface with the laws of POSIX; Mqueue/Memory has a list in its place.
-- What the code relies on is a hypothesis. Numbers
-- are natural numbers with the wrap-around of `uint32_t` and `uint8_t` written out; Base/Int has
-- integers for signed values. Traces to the log are left out. Where a function of the code can run
-- into undefined behaviour, or ends the process, its model gives an `Option`, and the file says which
-- of the two `none` is.
--
-- Fuel. The loops of `image_save`, `file_write_blocking` and the tasks of SIMPLE_TASKS run on
-- fuel. For `image_save` fuel above the size is enough, as each call passes on at least one
-- byte; a task of SIMPLE_TASKS makes at most five rounds. The tables of the colour conversion
-- and the loops over frames and buffers are structural. Rings have 2 ^ k cells with k at most
-- 31, so that no index wraps at 32 bits; the program has rings of 128 and of 256 cells.
--
-- Not modelled: the thread attributes, the handles of threads but for whether an entry of the
-- task table has one, the installation of the signal handler and the
-- settings of the timer but for its interval, which are calls of POSIX without an effect on the state;
-- what the C library prints for a format; the macros for the platform and the configurations of the
-- camera that the build does not select; the JavaScript of the stream viewer.
pub mod Base
pub mod Types
pub mod RingBuffer
pub mod Events
pub mod Detection
pub mod Config
pub mod Image
pub mod Framebuffer
pub mod Camera
pub mod Transcoder
pub mod Nvm
pub mod Osal
pub mod Mqueue
pub mod Pipeline
pub mod Syslog
pub mod System
pub mod Main
pub mod Motion
