-- ===== src/Lib.antt =====
-- The MQTT client of the Hornbill examples and the programs on top of it: the AWS IoT client in C
-- that the Arduino library under arduino-esp32/AWS_IOT/src builds, the class AWS_IOT that its sketches
-- call, and the data logger under esp-idf/Hornbill-Industrial-Data-Logger/main, which is linked with
-- another copy of such a client, and is modelled over its calls as parameters.
--
-- The parts and their files:
--   Errors     aws_iot_error.h: the error codes, and Result, what a call with output pointers comes
--              to: its outputs, an error code, or a fault, which is an access outside of a buffer
--   Wire       the byte level of aws_iot_mqtt_client_common_internal.c: a Cursor is a write pointer
--              into a buffer and a Reader a read pointer; Wire.Header is the header byte and
--              Wire.Length the remaining length of one to four bytes
--   Packet     the serialize and deserialize functions: Packet.Publish and Packet.Ack of
--              aws_iot_mqtt_client_publish.c, Packet.Subscribe of aws_iot_mqtt_client_subscribe.c,
--              Packet.Unsubscribe of aws_iot_mqtt_client_unsubscribe.c, Packet.Connect of
--              aws_iot_mqtt_client_connect.c
--   Timer      timer.c: countdowns in ticks of FreeRTOS
--   Topic      the matching of a topic name against a filter, in
--              aws_iot_mqtt_client_common_internal.c; Topic.Levels has the specification by levels
--   Threads    threads_freertos.c: the mutexes
--   Client     aws_iot_mqtt_client.h and aws_iot_mqtt_client.c: the client as a record, its state
--              (Client.State), packet ids (Client.PacketId) and initialisation (Client.Init), the
--              table of subscriptions (Client.Handlers), and the delivery of a message to the
--              handlers (Client.Deliver)
--   Transport  aws_iot_mqtt_internal_send_packet (Transport.Send) and
--              _aws_iot_mqtt_internal_read_packet (Transport.Receive) of
--              aws_iot_mqtt_client_common_internal.c, over the functions of a network
--   Exec       functions that work on the client, a timer and the world outside, and may fail, with
--              invariants (Exec.Keeps) and conditions before and after (Exec.Meets)
--   Session    the operations over the network: the reading of packets and waiting for one in
--              aws_iot_mqtt_client_common_internal.c (Session.Read), publish, subscribe, unsubscribe,
--              connect and disconnect in the files of their names (Session.Publish,
--              Session.Subscribe, Session.Unsubscribe, Session.Connect), and
--              aws_iot_mqtt_client_yield.c (Session.Yield). Session.Steady and Session.Restore have
--              what they share about the state of the client
--   Shadow     the subscriptions of the shadow client to the acknowledgements of its actions, in
--              aws_iot_shadow_records.c, over an interface that Session fills (Shadow.Connected), and
--              the list of the acknowledgements that are awaited, with
--              aws_iot_shadow_internal_action of aws_iot_shadow_actions.c (Shadow.Acks), and the tokens for
--              deltas (Shadow.Delta). Shadow.Json is the building of documents in aws_iot_shadow_json.c
--   Sensors    max6675.c (Sensors.Thermocouple) and currentSensor.c (Sensors.Current) of the data
--              logger
--   AwsIot     the class and the task of AWS_IOT.cpp, over Session
--   Logger     the task of the data logger in main.c, over Sensors
--   Common     names, tests, lists and texts that the parts share
--   Examples   the theorems at concrete inputs
--
-- A function keeps the name that it has in C, without the prefix aws_iot_mqtt_ or
-- aws_iot_mqtt_internal_. Output pointers are the result, a client that is changed is passed on, and
-- a pointer that the code compares with NULL is an Option. Unsigned numbers of w bits are natural
-- numbers with the remainder by 2 ^ w written out where an operation may wrap; size_t and pointers
-- have 32 bits. A C string is the list of its characters before the NUL, and a function or data
-- pointer of the application is its address.
--
-- The loop that writes a remaining length has fuel for 5 bytes, which a uint32_t does not exceed. The
-- loop that sends has fuel for one byte in each round, and the one that drops a packet too. The loop
-- that reads a remaining length from the network has no bound in the code, so its fuel is an
-- argument; fuel that runs out is a fault. So it is with the loops that wait for a packet and that
-- yield, which end by their timers: `rounds` of Session.System bounds them. The loop of
-- AWS_IOT::connect, which has no bound either, has its attempts as an argument, and is shown to end
-- with the first that succeeds. The loop of the data logger is run for any number of rounds. All
-- other loops are recursions on the data or the count that they run over.
--
-- Parameters: the tick counter, the sleep and the tick length of FreeRTOS and the answers of its
-- semaphores, the functions of the network stack and the outcome of setting it up, and what the
-- handlers of the application do to the client. A handler works on the client alone: one that calls
-- an operation of the client itself is not covered. So are the pins, the delays and the converter of
-- ESP-IDF, the client and the timers that the logger is linked with, the operations on doubles, the
-- sprintf of the logger and what printf prints for a number, the readers of JSON documents that the
-- shadow client calls, and the bits that a MAX6675 puts on its line. A temperature is a number of quarters of a degree, which a double holds exactly. What a
-- jsonStruct_t points to has the type that it names.
--
-- Not modelled: aws_iot_shadow.c, the readers of JSON documents, the calls of mbed TLS, logging, jsmn,
-- currentSensor_calcVI, the sketches, and the copy of the SDK under
-- esp-idf/Hornbill-Industrial-Data-Logger/components.
pub mod Common
pub mod Errors
pub mod Wire
pub mod Packet
pub mod Timer
pub mod Topic
pub mod Threads
pub mod Client
pub mod Transport
pub mod Exec
pub mod Session
pub mod Shadow
pub mod Sensors
pub mod AwsIot
pub mod Logger
pub mod Examples
