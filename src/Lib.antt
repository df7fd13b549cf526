-- ===== src/Lib.antt =====
-- lwrcl, a small library with the interface of rclcpp over Fast DDS. Paths below are relative to
-- the root of the repository; L is lwrcl/libraries/src/lwrcl.
--
-- The parts and how they interact. Every node owns a channel, a queue of callbacks under a mutex
-- with a condition variable. The listeners of its subscriptions run in threads of Fast DDS: each
-- valid sample goes to the message buffer of its subscription, and then a callback object to the
-- channel. Each timer has a thread of its own that puts a callback on the channel every period.
-- A thread in `Node::spin` or `Node::spin_some` takes the callbacks from the channel and invokes
-- them; the callback of a subscription hands the first message of the buffer to the user's
-- function and erases it. Executors spin several nodes, a registry of all nodes lets the signal
-- handler stop them, and publishers and subscribers acquire their DDS entities in constructors
-- that undo what they did when a step fails.
--
-- Which file models which part:
--   Channel            L/include/channel.hpp: the operations as atomic steps, since each runs
--                      under the mutex; Channel/Wait has the condition variable as a step relation
--   Subscriber         L/include/subscriber.hpp and ChannelCallback of channel.hpp: the listener
--                      and the objects on the channel; Subscriber/Endpoint has `Subscriber`
--   Publisher          L/include/publisher.hpp
--   Endpoint           the calls of Fast DDS that both constructors make, and what they answer
--   Node               class Node of L/include/lwrcl.hpp and L/src/lwrcl.cpp: the invocation of
--                      callbacks; Node/SpinSome has `spin_some`, Node/Spin has `spin` beside the
--                      threads that feed it and those that stop it
--   Executor           SingleThreadedExecutor (Executor/Single) and MultiThreadedExecutor
--                      (Executor/Multi) of L/src/lwrcl.cpp, with their mutex and null pointers
--   Registry           HandlerRegistry, lwrcl_signal_handler, `ok`, and how nodes come and go
--   Timer              L/include/timer.hpp: the worker thread of a timer
--   Time, Duration     the classes of the same names in L/src/lwrcl.cpp, and Clock
--   Rate               Rate of L/src/lwrcl.cpp; Rate/Signed has it with a period of either sign
--   Outcome, Base      results of calls that may fault or lock twice; lists, signed integers and
--                      the range of int64_t
--   Node/Ownership     the lists of a node that own its publishers, subscriptions and timers
--   Node/Participant   the participant that nodes share, and its deletion
--   Discovery          lwrcl/libraries/src/domain_participant_counter: the set of participants
--   Transforms         lwrcl/libraries/src/tf2_ros: the two broadcasters and the callback of the
--                      listener; Transforms/Convert has the conversions of times in
--                      include/tf2_ros/buffer_interface.h, Transforms/Buffer the Buffer of
--                      src/buffer.cpp in a world that each call may change, and Transforms/Polling
--                      the same loop over a list of readings of the clock; Transforms/Interface has
--                      the transform templates, Transforms/Listener the node, the thread and the
--                      destructor of the listener
--   Echo               lwrcl/libraries/src/tf2_ros/src/tf2_echo.cpp
--   StaticProgram      the options of the static transform publisher of the same directory, its
--                      `main` (StaticProgram/Main) and the message of its node
--   Sample             the publishers and subscribers of fastdds_ws/apps/HeaderTest, ImageTest,
--                      PointCloudTest and TransformStampedTest, which are copies of one another:
--                      `init` and the destructors, Sample/Publisher with the sending thread,
--                      Sample/Subscriber, Sample/Copies with a name for each class, Sample/Main
--                      with the arguments, Sample/Programs with the rest of each `main`
--   Cyclic             CustomROSTypeDataPublisher, CyclicROSDataPublisher and
--                      CustomROSTypeDataSubscriber of fastdds_ws/apps: the configuration and `init`,
--                      the POSIX timer (Cyclic/Timer), the thread that it wakes (Cyclic/Thread),
--                      and each `main` (Cyclic/Program)
--   App                the nodes of lwrcl/apps: `init` on top of Node/Ownership, the image filters
--                      (App/Image) and the other callbacks (App/Callbacks) on a node that spins, the
--                      programs (App/Main), the examples (App/Example), and a name for each class and
--                      program (App/Copies)
--   Monitor            lwrcl/libraries/src/tf2_ros/src/tf2_monitor.cpp: the logs of the callback,
--                      the rounds of `spin`, and the constructor with the printed results
--                      (Monitor/Output)
--   Encoding           the encodings of images in fastdds_ws/apps/ImageTest/ImageSubscriber.cpp;
--                      Encoding/Image has matFromImage
--
-- Correspondence and bounds. A method is a function of the state of its object with the source's
-- name, and a helper by clauses stands for a switch in it. The answers of Fast DDS, the readings of
-- clocks and the functions of the user are arguments. A user's function may change the state of
-- the program and make events happen (samples that arrive, timers that expire, a stop) at the node
-- that invokes it; it is a function of its input, so that a thread's run can be compared with a
-- replay. Numbers are natural numbers, or integers with int64_t as a range outside which the
-- result is `none`, since the overflow is undefined behaviour. `spin_some` and its inner loop take
-- fuel, of which a pass needs one unit for each callback that it invokes and one for the empty
-- queue that it ends with; the measure in Node/SpinSome/Total counts the queue and what the
-- callbacks may still add to it. `Node::spin` has no bound of its own and is a relation on states,
-- with as many moves as a run takes; the polling of the buffer runs over a list of the readings of
-- the clock. That over a world takes fuel, one unit for each ten milliseconds of the timeout and two
-- more.
--
-- The samples of Fast DDS run over rounds, lists of what Fast DDS reports before each test of a
-- loop, and the cyclic samples over the wake-ups of their thread; a list that ends before the loop
-- does leaves it waiting. A publisher's number of the last message is an int32_t, and the overflow of
-- it a value of its own; the product of the interval of a cyclic publisher is an int that wraps
-- around. What the image subscriber does with an image is Encoding/Image, whose exit ends the program.
--
-- Texts are native strings; doubles, std::stod, strtol, atoi, the quaternion of three Euler angles
-- and setTransform of tf2, the option parser, OpenCV, YAML files and readlink are parameters. Sizes of
-- images are products in uint32_t, with `% 2 ^ 32`. A path is a list of bytes.
--
-- Not modelled: prints, QoS values, what `write` and the participant do inside Fast DDS, the
-- conversions of times to double, and memory orders. Each access of a message buffer counts as
-- atomic; Node/Spin/Threads has the two writes of a listener as two steps, elsewhere no step of
-- another thread comes between them. The copies of tf2 and of the option parser are other projects' code.
pub mod App
pub mod Base
pub mod Channel
pub mod Cyclic
pub mod Discovery
pub mod Duration
pub mod Echo
pub mod Encoding
pub mod Endpoint
pub mod Executor
pub mod Monitor
pub mod Node
pub mod Outcome
pub mod Publisher
pub mod Rate
pub mod Registry
pub mod Sample
pub mod StaticProgram
pub mod Subscriber
pub mod Time
pub mod Timer
pub mod Transforms
